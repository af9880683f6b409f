-- ===== src/Code.antt =====
-- crates/code: the human-readable capability.
pub mod Alphabet
pub mod ShareCode
mod Tests
