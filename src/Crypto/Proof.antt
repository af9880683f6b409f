-- ===== src/Crypto/Proof.antt =====
-- crates/crypto/src/proof.rs: the proofs of an Open, an Offer and an acknowledgement. The transcript
-- of each is a function of its own.
pub mod Binding
use envshare.Prelude.{ℕ, List, [], ◌∷◌, Bytes, bytes_of, ok, err, ◌>>=◌, ◌>>◌, guard, ok_or}
use envshare.Primitives.{Primitives}
use envshare.Protocol.Limits.{protocol_version}
use envshare.Crypto.Types.{Crypto, PeerContext, OfferProofInput, key_derivation}
use envshare.Crypto.Transcript.{new, append_u16, append_u32, append_u64, append_bytes}
use envshare.Crypto.Kdf.{validate_context}

abbrev pub open_domain : Bytes
open_domain = bytes_of "envshare/open/v1"

abbrev pub offer_domain : Bytes
offer_domain = bytes_of "envshare/offer/v1"

abbrev pub ack_domain : Bytes
ack_domain = bytes_of "envshare/ack/v1"

unfoldable pub common_transcript : Bytes → PeerContext → Crypto Bytes
common_transcript domain context = do
  transcript ← new domain
  transcript ← append_u16 transcript protocol_version
  transcript ← append_bytes transcript context.network_id
  transcript ← append_bytes transcript context.room_id
  transcript ← append_bytes transcript context.sender_peer_id
  append_bytes transcript context.receiver_peer_id

unfoldable pub open_transcript : PeerContext → Bytes → Crypto Bytes
open_transcript context receiver_nonce = do
  validate_context context
  transcript ← common_transcript open_domain context
  append_bytes transcript receiver_nonce

unfoldable pub offer_transcript : OfferProofInput → Crypto Bytes
offer_transcript input = do
  validate_context input.context
  transcript ← common_transcript offer_domain input.context
  transcript ← append_bytes transcript input.receiver_nonce
  transcript ← append_bytes transcript input.sender_nonce
  transcript ← append_bytes transcript input.claim_id
  transcript ← append_u64 transcript input.expires_at_unix_ms
  transcript ← append_u16 transcript input.content_type
  transcript ← append_u32 transcript input.plaintext_length
  transcript ← append_bytes transcript input.aead_nonce
  append_bytes transcript input.ciphertext_digest

unfoldable pub acknowledgement_transcript : PeerContext → Bytes → Bytes → Crypto Bytes
acknowledgement_transcript context claim_id ciphertext_digest = do
  validate_context context
  transcript ← common_transcript ack_domain context
  transcript ← append_bytes transcript claim_id
  append_bytes transcript ciphertext_digest

module _ (P : Primitives) where
  unfoldable pub authenticate : Bytes → Bytes → Crypto Bytes
  authenticate key transcript = ok_or (P.hmac_sha256 key transcript) key_derivation

  unfoldable pub open_proof : Bytes → PeerContext → Bytes → Crypto Bytes
  open_proof key context receiver_nonce = do
    transcript ← open_transcript context receiver_nonce
    authenticate key transcript

  unfoldable pub offer_proof : Bytes → OfferProofInput → Crypto Bytes
  offer_proof key input = do transcript ← offer_transcript input; authenticate key transcript

  unfoldable pub acknowledgement_proof : Bytes → PeerContext → Bytes → Bytes → Crypto Bytes
  acknowledgement_proof key context claim_id ciphertext_digest = do
    transcript ← acknowledgement_transcript context claim_id ciphertext_digest
    authenticate key transcript
