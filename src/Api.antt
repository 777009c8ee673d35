-- ===== src/Api.antt =====
-- crates/ferrobox-api: the HTTP control plane. The handlers keep a record of each sandbox and each
-- snapshot, authorise requests by bearer tokens, and drive a runtime through its interface.
pub mod Types
pub mod Auth
pub mod Lifecycle
pub mod Snapshots
mod Tests
