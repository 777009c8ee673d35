-- ===== src/Firecracker.antt =====
-- The runtime that runs sandboxes as Firecracker machines:
-- crates/ferrobox-node/src/firecracker_runtime.rs.
pub mod Host
pub mod Steps
pub mod Boot
pub mod Cleanup
pub mod Launch
pub mod Lifecycle
pub mod Snapshots
pub mod Rollback
pub mod Streams
mod Tests
