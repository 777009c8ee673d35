-- ===== src/Process.antt =====
-- crates/ferrobox-node/src/process_runtime.rs: the development runtime, which runs commands on the
-- host. Its state is a table of sandboxes; the machine below it is a disk.
pub mod Disk
pub mod Runtime
pub mod Output
pub mod Files
pub mod Lifecycle
mod Tests
