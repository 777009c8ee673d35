-- ===== src/Network.antt =====
-- The DNS relay of a sandbox's network, in crates/ferrobox-node/src/network.rs.
pub mod Dns
pub mod Tcp
pub mod Upstreams
mod Tests
