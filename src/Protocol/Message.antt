-- ===== src/Protocol/Message.antt =====
-- crates/protocol/src/message.rs: the transfer messages and their CBOR bodies. An array of the
-- source is a byte string, and its length a condition of the theorems.
pub mod Codec
use envshare.Prelude.{
  ℕ, ◌+◌, ◌≡◌, Bool, true, false, not, ◌&&◌, ◌||◌, List, ◌++◌, leb, ltb, ◌==◌, max, is_empty,
  if◌then◌else◌, length, Bytes, Result, ok, err, ◌>>=◌, ◌>>◌, guard, ok_or, map_err,
}
use envshare.Cbor.{Cbor, has_length}
use envshare.Protocol.Limits.{
  max_payload_bytes, max_ciphertext_bytes, max_open_body_bytes, max_ack_body_bytes,
  max_completed_body_bytes, max_error_body_bytes, max_offer_body_bytes,
}
use envshare.Protocol.Errors.{
  ProtocolErrorCode, Wire, frame_too_large, invalid_message, code_as_u8, code_try_from,
}

pub record OpenRequest : Type 0 where
  pub protocol_version : ℕ
  pub room_id : Bytes
  pub receiver_nonce : Bytes
  pub receiver_proof : Bytes

pub record OfferResponse : Type 0 where
  pub protocol_version : ℕ
  pub claim_id : Bytes
  pub sender_nonce : Bytes
  pub aead_nonce : Bytes
  pub expires_at_unix_ms : ℕ
  pub content_type : ℕ
  pub plaintext_length : ℕ
  pub ciphertext : Bytes
  pub ciphertext_digest : Bytes
  pub sender_proof : Bytes

pub record AcknowledgeRequest : Type 0 where
  pub protocol_version : ℕ
  pub claim_id : Bytes
  pub ciphertext_digest : Bytes
  pub acknowledgement_proof : Bytes

pub record CompletedResponse : Type 0 where
  pub protocol_version : ℕ
  pub claim_id : Bytes

pub record ProtocolErrorResponse : Type 0 where
  pub protocol_version : ℕ
  pub code : ProtocolErrorCode

pub data TransferRequest : Type 0 where
  open_request : OpenRequest → TransferRequest
  acknowledge : AcknowledgeRequest → TransferRequest

pub data TransferResponse : Type 0 where
  offer : OfferResponse → TransferResponse
  completed : CompletedResponse → TransferResponse
  error : ProtocolErrorResponse → TransferResponse

module _ (C : Cbor) where
  -- The encoders write at the end of the buffer; here they give what they write.
  unfoldable pub encode_open : OpenRequest → Bytes
  encode_open r =
      C.put_map 4
      ++ (C.put_uint 0
          ++ (C.put_uint r.protocol_version
              ++ (C.put_uint 1
                  ++ (C.put_bytes r.room_id
                      ++ (C.put_uint 2
                          ++ (C.put_bytes r.receiver_nonce
                              ++ (C.put_uint 3 ++ C.put_bytes r.receiver_proof)))))))

  unfoldable pub encode_acknowledgement : AcknowledgeRequest → Bytes
  encode_acknowledgement r =
      C.put_map 4
      ++ (C.put_uint 0
          ++ (C.put_uint r.protocol_version
              ++ (C.put_uint 1
                  ++ (C.put_bytes r.claim_id
                      ++ (C.put_uint 2
                          ++ (C.put_bytes r.ciphertext_digest
                              ++ (C.put_uint 3 ++ C.put_bytes r.acknowledgement_proof)))))))

  unfoldable pub encode_offer : OfferResponse → Bytes
  encode_offer r =
      C.put_map 10
      ++ (C.put_uint 0
          ++ (C.put_uint r.protocol_version
              ++ (C.put_uint 1
                  ++ (C.put_bytes r.claim_id
                      ++ (C.put_uint 2
                          ++ (C.put_bytes r.sender_nonce
                              ++ (C.put_uint 3
                                  ++ (C.put_bytes r.aead_nonce
                                      ++ (C.put_uint 4
                                          ++ (C.put_uint r.expires_at_unix_ms
                                              ++ (C.put_uint 5
                                                  ++ (C.put_uint r.content_type
                                                      ++ (C.put_uint 6
                                                          ++ (C.put_uint r.plaintext_length
                                                            ++ (C.put_uint 7
                                                            ++ (C.put_bytes r.ciphertext
                                                            ++ (C.put_uint 8
                                                            ++ (C.put_bytes r.ciphertext_digest
                                                            ++ (C.put_uint 9
                                                            ++ C.put_bytes
                                                            r.sender_proof)))))))))))))))))))

  unfoldable pub encode_completed : CompletedResponse → Bytes
  encode_completed r =
      C.put_map 2
      ++ (C.put_uint 0
          ++ (C.put_uint r.protocol_version ++ (C.put_uint 1 ++ C.put_bytes r.claim_id)))

  unfoldable pub encode_error : ProtocolErrorResponse → Bytes
  encode_error r =
      C.put_map 2
      ++ (C.put_uint 0
          ++ (C.put_uint r.protocol_version ++ (C.put_uint 1 ++ C.put_uint (code_as_u8 r.code))))

  pub expect_map : ℕ → Bytes → Wire Bytes
  unfolding has_length
  expect_map fields decoder = do
    (found, decoder) ← ok_or (C.get_map decoder) invalid_message
    guard (has_length found fields) invalid_message
    ok decoder

  pub expect_array : ℕ → Bytes → Wire Bytes
  unfolding has_length
  expect_array items decoder = do
    (found, decoder) ← ok_or (C.get_array decoder) invalid_message
    guard (has_length found items) invalid_message
    ok decoder

  unfoldable pub expect_key : ℕ → Bytes → Wire Bytes
  expect_key expected decoder = do
    (key, decoder) ← ok_or (C.get_u8 decoder) invalid_message
    guard (key == expected) invalid_message
    ok decoder

  pub decode_fixed : ℕ → Bytes → Wire (Bytes × Bytes)
  decode_fixed size decoder = do
    (value, decoder) ← ok_or (C.get_bytes decoder) invalid_message
    guard (length value == size) invalid_message
    ok (value, decoder)

  unfoldable pub decode_open : Bytes → Wire (OpenRequest × Bytes)
  decode_open decoder = do
    decoder ← expect_map 4 decoder
    decoder ← expect_key 0 decoder
    (protocol_version, decoder) ← ok_or (C.get_u16 decoder) invalid_message
    decoder ← expect_key 1 decoder
    (room_id, decoder) ← decode_fixed 16 decoder
    decoder ← expect_key 2 decoder
    (receiver_nonce, decoder) ← decode_fixed 32 decoder
    decoder ← expect_key 3 decoder
    (receiver_proof, decoder) ← decode_fixed 32 decoder
    ok (
      record {
        protocol_version = protocol_version;
        room_id = room_id;
        receiver_nonce = receiver_nonce;
        receiver_proof = receiver_proof;
      },
      decoder,
    )

  unfoldable pub decode_acknowledgement : Bytes → Wire (AcknowledgeRequest × Bytes)
  decode_acknowledgement decoder = do
    decoder ← expect_map 4 decoder
    decoder ← expect_key 0 decoder
    (protocol_version, decoder) ← ok_or (C.get_u16 decoder) invalid_message
    decoder ← expect_key 1 decoder
    (claim_id, decoder) ← decode_fixed 16 decoder
    decoder ← expect_key 2 decoder
    (ciphertext_digest, decoder) ← decode_fixed 32 decoder
    decoder ← expect_key 3 decoder
    (acknowledgement_proof, decoder) ← decode_fixed 32 decoder
    ok (
      record {
        protocol_version = protocol_version;
        claim_id = claim_id;
        ciphertext_digest = ciphertext_digest;
        acknowledgement_proof = acknowledgement_proof;
      },
      decoder,
    )

  unfoldable pub decode_offer : Bytes → Wire (OfferResponse × Bytes)
  decode_offer decoder = do
    decoder ← expect_map 10 decoder
    decoder ← expect_key 0 decoder
    (protocol_version, decoder) ← ok_or (C.get_u16 decoder) invalid_message
    decoder ← expect_key 1 decoder
    (claim_id, decoder) ← decode_fixed 16 decoder
    decoder ← expect_key 2 decoder
    (sender_nonce, decoder) ← decode_fixed 32 decoder
    decoder ← expect_key 3 decoder
    (aead_nonce, decoder) ← decode_fixed 24 decoder
    decoder ← expect_key 4 decoder
    (expires_at_unix_ms, decoder) ← ok_or (C.get_u64 decoder) invalid_message
    decoder ← expect_key 5 decoder
    (content_type, decoder) ← ok_or (C.get_u8 decoder) invalid_message
    decoder ← expect_key 6 decoder
    (plaintext_length, decoder) ← ok_or (C.get_u32 decoder) invalid_message
    decoder ← expect_key 7 decoder
    (ciphertext, decoder) ← ok_or (C.get_bytes decoder) invalid_message
    guard (leb (length ciphertext) max_ciphertext_bytes) frame_too_large
    decoder ← expect_key 8 decoder
    (ciphertext_digest, decoder) ← decode_fixed 32 decoder
    decoder ← expect_key 9 decoder
    (sender_proof, decoder) ← decode_fixed 32 decoder
    ok (
      record {
        protocol_version = protocol_version;
        claim_id = claim_id;
        sender_nonce = sender_nonce;
        aead_nonce = aead_nonce;
        expires_at_unix_ms = expires_at_unix_ms;
        content_type = content_type;
        plaintext_length = plaintext_length;
        ciphertext = ciphertext;
        ciphertext_digest = ciphertext_digest;
        sender_proof = sender_proof;
      },
      decoder,
    )

  unfoldable pub decode_completed : Bytes → Wire (CompletedResponse × Bytes)
  decode_completed decoder = do
    decoder ← expect_map 2 decoder
    decoder ← expect_key 0 decoder
    (protocol_version, decoder) ← ok_or (C.get_u16 decoder) invalid_message
    decoder ← expect_key 1 decoder
    (claim_id, decoder) ← decode_fixed 16 decoder
    ok (record { protocol_version = protocol_version; claim_id = claim_id }, decoder)

  unfoldable pub decode_error : Bytes → Wire (ProtocolErrorResponse × Bytes)
  decode_error decoder = do
    decoder ← expect_map 2 decoder
    decoder ← expect_key 0 decoder
    (protocol_version, decoder) ← ok_or (C.get_u16 decoder) invalid_message
    decoder ← expect_key 1 decoder
    (code, decoder) ← ok_or (C.get_u8 decoder) invalid_message
    code ← code_try_from code
    ok (record { protocol_version = protocol_version; code = code }, decoder)
