-- ===== src/Guest.antt =====
-- The agent inside a microVM, crates/ferrobox-guest.
pub mod Output
pub mod Session
pub mod Files
mod Tests
