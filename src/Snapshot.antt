-- ===== src/Snapshot.antt =====
-- The store of snapshots on disk: crates/ferrobox-node/src/snapshot.rs.
pub mod Store
pub mod Comparison
pub mod Integrity
pub mod Publication
mod Tests
