-- ===== src/Protocol/Message/Codec.antt =====
-- crates/protocol/src/message.rs: the codec of messages.
use envshare.Prelude.{
  ℕ, ◌^◌, ◌≤◌, ◌<◌, ◌≡◌, ◌++◌, append_assoc, arith, ==_refl, ==_iff, le→leb, length, Bytes, ok,
}
use envshare.Cbor.{Cbor, IsCbor}
use envshare.Protocol.Limits.{max_payload_bytes, max_ciphertext_bytes}
use envshare.Protocol.Errors.{code_as_u8, code_try_from-code_as_u8, code_as_u8-lt}
use envshare.Protocol.Message.{
  OpenRequest, OfferResponse, AcknowledgeRequest, CompletedResponse, ProtocolErrorResponse,
  encode_open, encode_acknowledgement, encode_offer, encode_completed, encode_error, expect_map,
  expect_array, expect_key, decode_fixed, decode_open, decode_acknowledgement, decode_offer,
  decode_completed, decode_error,
}

-- The Rust types of the fields.
pub record IsOpenRequest (r : OpenRequest) : Type 0 where
  pub version : r.protocol_version < 2 ^ 16
  pub room : length r.room_id ≡ 16
  pub nonce : length r.receiver_nonce ≡ 32
  pub proof : length r.receiver_proof ≡ 32

pub record IsAcknowledgeRequest (r : AcknowledgeRequest) : Type 0 where
  pub version : r.protocol_version < 2 ^ 16
  pub claim : length r.claim_id ≡ 16
  pub digest : length r.ciphertext_digest ≡ 32
  pub proof : length r.acknowledgement_proof ≡ 32

pub record IsOfferResponse (r : OfferResponse) : Type 0 where
  pub version : r.protocol_version < 2 ^ 16
  pub claim : length r.claim_id ≡ 16
  pub nonce : length r.sender_nonce ≡ 32
  pub aead : length r.aead_nonce ≡ 24
  pub expires : r.expires_at_unix_ms < 2 ^ 64
  pub content : r.content_type < 2 ^ 8
  pub plaintext : r.plaintext_length ≤ max_payload_bytes
  pub size : length r.ciphertext ≤ max_ciphertext_bytes
  pub digest : length r.ciphertext_digest ≡ 32
  pub proof : length r.sender_proof ≡ 32

pub record IsCompletedResponse (r : CompletedResponse) : Type 0 where
  pub version : r.protocol_version < 2 ^ 16
  pub claim : length r.claim_id ≡ 16

pub record IsErrorResponse (r : ProtocolErrorResponse) : Type 0 where
  pub version : r.protocol_version < 2 ^ 16

module _ (C : Cbor) (L : IsCbor C) where
  map_lem : (n : ℕ) (rest : Bytes) → n < 2 ^ 64 → expect_map C n (C.put_map n ++ rest) ≡ ok rest
  unfolding expect_map
  map_lem n rest h = rw (L.map n rest h, ==_refl n)

  pub array_lem :
      (n : ℕ) (rest : Bytes) → n < 2 ^ 64 → expect_array C n (C.put_array n ++ rest) ≡ ok rest
  unfolding expect_array
  array_lem n rest h = rw (L.array n rest h, ==_refl n)

  key_lem : (k : ℕ) (rest : Bytes) → k < 256 → expect_key C k (C.put_uint k ++ rest) ≡ ok rest
  unfolding expect_key
  key_lem k rest h = rw (L.u8 k rest h, ==_refl k)

  fixed_lem :
      (size : ℕ) (v rest : Bytes)
      → size < 2 ^ 64
      → length v ≡ size
      → decode_fixed C size (C.put_bytes v ++ rest) ≡ ok (v, rest)
  unfolding decode_fixed
  fixed_lem size v rest h n = rw (L.bytes v rest (omega arith), (==_iff (length v) size).1 n)

  pub decode_open-encode_open :
      (r : OpenRequest) (rest : Bytes)
      → IsOpenRequest r
      → decode_open C (encode_open C r ++ rest) ≡ ok (r, rest)
  unfolding encode_open decode_open
  decode_open-encode_open r rest v = simp append_assoc (
      rw (
        map_lem 4 _ (omega arith),
        key_lem 0 _ (omega arith),
        L.u16 r.protocol_version _ v.version,
        key_lem 1 _ (omega arith),
        fixed_lem 16 r.room_id _ (omega arith) v.room,
        key_lem 2 _ (omega arith),
        fixed_lem 32 r.receiver_nonce _ (omega arith) v.nonce,
        key_lem 3 _ (omega arith),
        fixed_lem 32 r.receiver_proof rest (omega arith) v.proof,
      ))

  pub decode_acknowledgement-encode_acknowledgement :
      (r : AcknowledgeRequest) (rest : Bytes)
      → IsAcknowledgeRequest r
      → decode_acknowledgement C (encode_acknowledgement C r ++ rest) ≡ ok (r, rest)
  unfolding encode_acknowledgement decode_acknowledgement
  decode_acknowledgement-encode_acknowledgement r rest v = simp append_assoc (
      rw (
        map_lem 4 _ (omega arith),
        key_lem 0 _ (omega arith),
        L.u16 r.protocol_version _ v.version,
        key_lem 1 _ (omega arith),
        fixed_lem 16 r.claim_id _ (omega arith) v.claim,
        key_lem 2 _ (omega arith),
        fixed_lem 32 r.ciphertext_digest _ (omega arith) v.digest,
        key_lem 3 _ (omega arith),
        fixed_lem 32 r.acknowledgement_proof rest (omega arith) v.proof,
      ))

  pub decode_offer-encode_offer :
      (r : OfferResponse) (rest : Bytes)
      → IsOfferResponse r
      → decode_offer C (encode_offer C r ++ rest) ≡ ok (r, rest)
  unfolding encode_offer decode_offer
  decode_offer-encode_offer r rest v = simp append_assoc (
      rw (
        map_lem 10 _ (omega arith),
        key_lem 0 _ (omega arith),
        L.u16 r.protocol_version _ v.version,
        key_lem 1 _ (omega arith),
        fixed_lem 16 r.claim_id _ (omega arith) v.claim,
        key_lem 2 _ (omega arith),
        fixed_lem 32 r.sender_nonce _ (omega arith) v.nonce,
        key_lem 3 _ (omega arith),
        fixed_lem 24 r.aead_nonce _ (omega arith) v.aead,
        key_lem 4 _ (omega arith),
        L.u64 r.expires_at_unix_ms _ v.expires,
        key_lem 5 _ (omega arith),
        L.u8 r.content_type _ v.content,
        key_lem 6 _ (omega arith),
        L.u32 r.plaintext_length _ (omega arith),
        key_lem 7 _ (omega arith),
        L.bytes r.ciphertext _ (omega arith),
        le→leb (length r.ciphertext) max_ciphertext_bytes v.size,
        key_lem 8 _ (omega arith),
        fixed_lem 32 r.ciphertext_digest _ (omega arith) v.digest,
        key_lem 9 _ (omega arith),
        fixed_lem 32 r.sender_proof rest (omega arith) v.proof,
      ))

  pub decode_completed-encode_completed :
      (r : CompletedResponse) (rest : Bytes)
      → IsCompletedResponse r
      → decode_completed C (encode_completed C r ++ rest) ≡ ok (r, rest)
  unfolding encode_completed decode_completed
  decode_completed-encode_completed r rest v = simp append_assoc (
      rw (
        map_lem 2 _ (omega arith),
        key_lem 0 _ (omega arith),
        L.u16 r.protocol_version _ v.version,
        key_lem 1 _ (omega arith),
        fixed_lem 16 r.claim_id rest (omega arith) v.claim,
      ))

  pub decode_error-encode_error :
      (r : ProtocolErrorResponse) (rest : Bytes)
      → IsErrorResponse r
      → decode_error C (encode_error C r ++ rest) ≡ ok (r, rest)
  unfolding encode_error decode_error
  decode_error-encode_error r rest v = simp append_assoc (
      rw (
        map_lem 2 _ (omega arith),
        key_lem 0 _ (omega arith),
        L.u16 r.protocol_version _ v.version,
        key_lem 1 _ (omega arith),
        L.u8 (code_as_u8 r.code) rest (code_as_u8-lt r.code),
        code_try_from-code_as_u8 r.code,
      ))
