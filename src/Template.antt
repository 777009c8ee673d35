-- ===== src/Template.antt =====
-- The template catalogue, crates/ferrobox-template/src/lib.rs.
pub mod Fields
pub mod Records
pub mod Request
pub mod Catalog
mod Tests
