-- ===== src/Network.antt =====
-- crates/network: the client's side of discovery.
pub mod Errors
pub mod Multiaddr
pub mod Discovery
pub mod Provider
pub mod Driver
mod Tests
