-- ===== src/Core.antt =====
-- crates/ferrobox-core/src/lib.rs: the domain types that the control plane and the runtimes share.
-- A runtime error is modelled by its kind (`Core/Error.antt`); the text of its message is left out.
pub mod Error
pub mod Spec
pub mod Paths
pub mod Exec
pub mod State
pub mod Runtime
mod Tests
