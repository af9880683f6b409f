-- ===== src/Node.antt =====
-- crates/node: the relay and rendezvous node.
pub mod Maps
pub mod Admission
pub mod Address
pub mod Store
pub mod Config
pub mod Discovery
pub mod Wire
pub mod Status
pub mod Server
mod Tests
