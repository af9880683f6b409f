-- ===== src/Protocol/Body.antt =====
-- crates/protocol/src/message.rs: the bodies of requests and responses.
pub mod RoundTrip
use envshare.Prelude.{
  ℕ, ◌≡◌, Bool, not, ◌&&◌, ◌||◌, List, ◌++◌, leb, ltb, max, is_empty, length, Bytes, Result, ok,
  err, ◌>>=◌, ◌>>◌, guard, ok_or, ◌==◌, if◌then◌else◌,
}
use envshare.Cbor.{Cbor}
use envshare.Protocol.Limits.{
  max_payload_bytes, max_ciphertext_bytes, max_open_body_bytes, max_ack_body_bytes,
  max_completed_body_bytes, max_error_body_bytes, max_offer_body_bytes,
}
use envshare.Protocol.Errors.{Wire, frame_too_large, invalid_message}
use envshare.Protocol.Message.{
  OfferResponse, TransferRequest, open_request, acknowledge, TransferResponse, offer, completed,
  error, encode_open, encode_acknowledgement, encode_offer, encode_completed, encode_error,
  expect_array, decode_open, decode_acknowledgement, decode_offer, decode_completed, decode_error,
}

abbrev pub max_request_body_bytes : ℕ
max_request_body_bytes = max max_open_body_bytes max_ack_body_bytes

pub validate_offer : OfferResponse → Wire (Unit {0})
validate_offer r =
    guard
      (leb r.plaintext_length max_payload_bytes && leb (length r.ciphertext) max_ciphertext_bytes)
      frame_too_large

-- The position is the length of the input exactly when nothing is left.
pub finish_decode : Bytes → Wire (Unit {0})
finish_decode decoder = guard (is_empty decoder) invalid_message

-- What `encode_response_body` checks before it writes.
pub validate_response : TransferResponse → Wire (Unit {0})
validate_response (offer r) = validate_offer r
validate_response (completed r) = ok tt
validate_response (error r) = ok tt

pub response_limit : TransferResponse → ℕ
response_limit (offer r) = max_offer_body_bytes
response_limit (completed r) = max_completed_body_bytes
response_limit (error r) = max_error_body_bytes

module _ (C : Cbor) where
  pub request_items : TransferRequest → Bytes
  request_items (open_request r) = C.put_uint 0 ++ encode_open C r
  request_items (acknowledge r) = C.put_uint 1 ++ encode_acknowledgement C r

  pub encode_request_body : TransferRequest → Wire Bytes
  encode_request_body request = do
    let body = C.put_array 2 ++ request_items request
    guard (leb (length body) max_request_body_bytes) frame_too_large
    ok body

  -- The arms of the `match` on the kind.
  pub decode_request : ℕ → Bytes → Wire (TransferRequest × Bytes)
  decode_request kind decoder =
      if kind == 0
      then (do (r, decoder) ← decode_open C decoder; ok (open_request r, decoder))
      else if kind == 1
      then (do (r, decoder) ← decode_acknowledgement C decoder; ok (acknowledge r, decoder))
      else err invalid_message

  pub decode_request_body : Bytes → Wire TransferRequest
  decode_request_body encoded = do
    guard (not (is_empty encoded) && leb (length encoded) max_request_body_bytes) frame_too_large
    decoder ← expect_array C 2 encoded
    (kind, decoder) ← ok_or (C.get_u8 decoder) invalid_message
    (request, decoder) ← decode_request kind decoder
    finish_decode decoder
    ok request

  pub response_items : TransferResponse → Bytes
  response_items (offer r) = C.put_uint 0 ++ encode_offer C r
  response_items (completed r) = C.put_uint 1 ++ encode_completed C r
  response_items (error r) = C.put_uint 2 ++ encode_error C r

  pub encode_response_body : TransferResponse → Wire Bytes
  encode_response_body response = do
    validate_response response
    let body = C.put_array 2 ++ response_items response
    guard (leb (length body) (response_limit response)) frame_too_large
    ok body

  pub decode_response : ℕ → Bytes → Wire (TransferResponse × Bytes)
  decode_response kind decoder =
      if kind == 0
      then (do (r, decoder) ← decode_offer C decoder; validate_offer r; ok (offer r, decoder))
      else if kind == 1
      then (do (r, decoder) ← decode_completed C decoder; ok (completed r, decoder))
      else if kind == 2
      then (do (r, decoder) ← decode_error C decoder; ok (error r, decoder))
      else err invalid_message

  pub decode_response_body : Bytes → Wire TransferResponse
  decode_response_body encoded = do
    guard (not (is_empty encoded) && leb (length encoded) max_offer_body_bytes) frame_too_large
    decoder ← expect_array C 2 encoded
    (kind, decoder) ← ok_or (C.get_u8 decoder) invalid_message
    (response, decoder) ← decode_response kind decoder
    guard (leb (length encoded) (response_limit response)) frame_too_large
    finish_decode decoder
    ok response
