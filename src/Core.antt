-- ===== src/Core.antt =====
-- crates/core: the sender's actor, the receiver's session and the direct transfer.
pub mod Errors
pub mod Sender
pub mod Offer
pub mod Receiver
pub mod Lifecycle
pub mod Direct
pub mod Transfer
pub mod BTreeMap
pub mod Dotenv
mod Tests
