-- ===== src/Crypto/Types.antt =====
-- crates/crypto/src/types.rs and error.rs. The wrappers of byte arrays (`RoomId`, `ReceiverNonce`,
-- `SenderNonce`, `ClaimId`, `AeadNonce`, `CiphertextDigest`, the keys and `AuthenticationProof`) are
-- their bytes; a `&str` is its UTF-8 bytes.
use envshare.Prelude.{ℕ, Bool, Bytes, bytes_eq, Result}

pub data CryptoError : Type 0 where
  invalid_network_id invalid_peer_identity transcript_too_large key_derivation : CryptoError
  entropy_unavailable encryption decryption : CryptoError

abbrev pub Crypto {ℓ} : Type ℓ → Type ℓ
Crypto A = Result CryptoError A

pub record DerivedRoot : Type 0 where
  pub room_id : Bytes
  pub authentication_key : Bytes
  pub session_base_key : Bytes

pub record SessionKeys : Type 0 where
  pub payload_key : Bytes
  pub acknowledgement_key : Bytes

pub record PeerContext : Type 0 where
  pub network_id : Bytes
  pub room_id : Bytes
  pub sender_peer_id : Bytes
  pub receiver_peer_id : Bytes

pub record PayloadAadInput : Type 0 where
  pub context : PeerContext
  pub receiver_nonce : Bytes
  pub sender_nonce : Bytes
  pub claim_id : Bytes
  pub expires_at_unix_ms : ℕ
  pub content_type : ℕ
  pub plaintext_length : ℕ

pub record OfferProofInput : Type 0 where
  pub context : PeerContext
  pub receiver_nonce : Bytes
  pub sender_nonce : Bytes
  pub claim_id : Bytes
  pub expires_at_unix_ms : ℕ
  pub content_type : ℕ
  pub plaintext_length : ℕ
  pub aead_nonce : Bytes
  pub ciphertext_digest : Bytes

-- `AuthenticationProof::verifies`
unfoldable pub verifies : Bytes → Bytes → Bool
verifies proof supplied = bytes_eq proof supplied
