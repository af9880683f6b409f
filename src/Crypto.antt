-- ===== src/Crypto.antt =====
-- crates/crypto: transcripts, key derivation, proofs, payload encryption and digests.
pub mod Types
pub mod Transcript
pub mod Kdf
pub mod Proof
pub mod Aead
mod Tests
