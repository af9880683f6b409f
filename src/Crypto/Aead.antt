-- ===== src/Crypto/Aead.antt =====
-- crates/crypto/src/aead.rs and digest.rs: the encrypted payload, its associated data and its digest.
use envshare.Prelude.{Bool, ◌++◌, Bytes, bytes_of, bytes_eq, ◌>>=◌, ◌>>◌, ok_or}
use envshare.Primitives.{Primitives}
use envshare.Crypto.Types.{Crypto, PayloadAadInput, encryption, decryption}
use envshare.Crypto.Transcript.{new, append_u16, append_u32, append_u64, append_bytes}
use envshare.Crypto.Kdf.{validate_context}
use envshare.Protocol.Limits.{protocol_version}

abbrev payload_aad_domain : Bytes
payload_aad_domain = bytes_of "envshare/payload-aad/v1"

unfoldable pub payload_associated_data : PayloadAadInput → Crypto Bytes
payload_associated_data input = do
  validate_context input.context
  transcript ← new payload_aad_domain
  transcript ← append_u16 transcript protocol_version
  transcript ← append_bytes transcript input.context.network_id
  transcript ← append_bytes transcript input.context.room_id
  transcript ← append_bytes transcript input.context.sender_peer_id
  transcript ← append_bytes transcript input.context.receiver_peer_id
  transcript ← append_bytes transcript input.receiver_nonce
  transcript ← append_bytes transcript input.sender_nonce
  transcript ← append_bytes transcript input.claim_id
  transcript ← append_u64 transcript input.expires_at_unix_ms
  transcript ← append_u16 transcript input.content_type
  append_u32 transcript input.plaintext_length

module _ (P : Primitives) where
  unfoldable pub encrypt_payload : Bytes → Bytes → Bytes → Bytes → Crypto Bytes
  encrypt_payload key nonce plaintext associated_data =
      ok_or (P.encrypt key nonce associated_data plaintext) encryption

  unfoldable pub decrypt_payload : Bytes → Bytes → Bytes → Bytes → Crypto Bytes
  decrypt_payload key nonce ciphertext associated_data =
      ok_or (P.decrypt key nonce associated_data ciphertext) decryption

  unfoldable pub ciphertext_digest : Bytes → Bytes → Bytes
  ciphertext_digest nonce ciphertext = P.sha256 (nonce ++ ciphertext)

  unfoldable pub verify_ciphertext_digest : Bytes → Bytes → Bytes → Bool
  verify_ciphertext_digest expected nonce ciphertext =
      bytes_eq (ciphertext_digest nonce ciphertext) expected
