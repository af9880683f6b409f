-- ===== src/Protocol.antt =====
-- crates/protocol: limits, errors, envelopes, messages and frames.
pub mod Limits
pub mod Errors
pub mod Envelope
pub mod Message
pub mod Body
pub mod Frame
mod Tests
