-- ===== src/Lib.antt =====
-- Ferrobox runs commands for clients in sandboxes. A client speaks HTTP to the API server
-- (crates/ferrobox-api), which keeps a record of each sandbox, checks the client's token and calls a
-- sandbox runtime (the trait `SandboxRuntime` of crates/ferrobox-core). The process runtime of
-- crates/ferrobox-node runs commands on the host; the Firecracker runtime beside it runs them in
-- microVMs, where an agent (crates/ferrobox-guest) serves them, behind a DNS relay
-- (crates/ferrobox-node/src/network.rs).
--
-- What models what:
-- - Prelude: Boolean tests, lists, results, texts and association tables; Prelude.Exec is a state
--   passing monad with errors, where what was changed before an error stays changed.
-- - Core: crates/ferrobox-core/src/lib.rs. Error, Spec, Paths, Exec and State are its types, limits,
--   validators and state table; Runtime is the trait as a record of operations over any state.
-- - Api: crates/ferrobox-api/src/lib.rs with auth.rs and audit.rs beside it. Types is the server's
--   state, Auth its checks, Lifecycle and Snapshots one function for each handler. A handler is given
--   what it sees of its surroundings: the clocks, the parser of identifiers, SHA-256, and which lines
--   of the audit log can be written. The timer of a sandbox is the operation `reap`.
-- - Process: crates/ferrobox-node/src/process_runtime.rs. Disk is the host's file system, Runtime the
--   state and `safe_path`, Output the limit on a command's output, Files the operations on files,
--   Lifecycle the others and the whole implementation of the trait.
-- - Firecracker: crates/ferrobox-node/src/firecracker_runtime.rs. Host is its state and all that it
--   asks of the machine, of the Firecracker process and of the guest, as calls that an arbitrary host
--   answers after the calls before them; Host.Inventory reads off the calls which jailer processes and
--   leases are outstanding, that is, whose end has been neither asked for nor seen, and whether a
--   control group was emptied. The jailer starts its machine in a process namespace of its own, so
--   that the end of the jailer process does not say that the machine has ended: the control group
--   does. Steps is how operations are built, Boot the waiting for a machine and its guest, Cleanup
--   what is taken away, Launch a launch, Lifecycle creation, pause, resume and delete, Snapshots and
--   Rollback the snapshot operations, Streams what the guest streams.
-- - Snapshot: crates/ferrobox-node/src/snapshot.rs. Store is staging, the signed manifest, verification
--   and the restore token, over a folder as a function from names to contents.
-- - Guest: crates/ferrobox-guest/src/service.rs. Session is `init`, `rekey` and `authorized`; Output is
--   `read_output`, whose two tasks are state machines that a schedule interleaves at their atomic steps;
--   Files is the chunked stream of `read_file`.
-- - Network: crates/ferrobox-node/src/network.rs, the DNS relay: Dns for messages, Tcp for connections,
--   Upstreams for the choice of resolvers.
-- - Template: crates/ferrobox-template/src/lib.rs, the catalogue. Fields and Request are the checks of a
--   request, Records the records and their identity, Catalog the directory of records and its operations.
--
-- Conventions: a text is a list of code points and a byte string a list of numbers below 256; numbers
-- are natural numbers, with the wrap of the shared counter of `read_output` written out; an identifier
-- is a number, drawn outside and given to the operation that uses it; the message of an error is left
-- out, its kind is kept. A handler runs as one step, so what two requests can do to each other between
-- the locks that a handler takes is seen only where a step is modelled by itself, as in Guest.Output.
-- A write of a file happens whole or not at all; the removal of a folder that fails may have removed any
-- part of it. In Rollback, what other tasks do to the table before
-- the swap is a parameter. The guest's answers to a stream are parameters of Firecracker.Streams, and
-- Firecracker.Streams.Relay puts the guest's model in their place.
--
-- Bounds and fuel: the TCP relay runs on the length of its input plus one, and each round takes two
-- bytes at least; the clients that read a file piece by piece or follow cursors have fuel, and the
-- theorems state how much is enough. The chunks of a file have the maximum and one more, and each but
-- the last takes a byte at least. The loops of the Firecracker runtime that wait have as many rounds as the
-- host says that the clock allows, and 250 for the control group, as in the code.
--
-- Not modelled: of the Firecracker runtime, prewarming (which starts machines concurrently), the check
-- of the configuration, the injected fault of `clone_snapshot`, the listing of snapshots and what only
-- measures; the network manager, which it calls; of the snapshot store, the handling of folders, the
-- modes of files and the flushes to disk; the guest's writes and listings, the firewall's command
-- lines, start-up code, serialisation and the command line client.
mod Prelude
pub mod Core
pub mod Api
pub mod Process
pub mod Firecracker
pub mod Guest
pub mod Network
pub mod Snapshot
pub mod Template
