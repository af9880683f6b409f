-- ===== src/Protocol/Frame.antt =====
-- crates/protocol/src/frame.rs: a four-byte length and a body.
pub mod RoundTrip
use envshare.Prelude.{
  ℕ, ◌+◌, ◌^◌, Bool, not, List, ◌++◌, leb, ltb, ◌==◌, is_empty, length, take, drop, Bytes,
  to_be_bytes, from_be_bytes, Result, ok, err, ◌>>=◌, ◌>>◌, guard,
}
use envshare.Cbor.{Cbor}
use envshare.Protocol.Limits.{max_offer_body_bytes}
use envshare.Protocol.Errors.{
  Wire, incomplete_header, empty_frame, frame_too_large, length_mismatch,
}
use envshare.Protocol.Message.{TransferRequest, TransferResponse}
use envshare.Protocol.Body.{
  max_request_body_bytes, encode_request_body, decode_request_body, encode_response_body,
  decode_response_body,
}

abbrev header_bytes : ℕ
header_bytes = 4

-- A u32 always fits a 64-bit `usize`.
pub parse_frame_length : Bytes → Wire ℕ
parse_frame_length header = do
  guard (leb header_bytes (length header)) incomplete_header
  let size = from_be_bytes (take header_bytes header)
  guard (not (size == 0)) empty_frame
  ok size

pub encode_frame : Bytes → Wire Bytes
encode_frame body = do
  guard (not (is_empty body)) empty_frame
  guard (ltb (length body) (2 ^ 32)) frame_too_large
  ok (to_be_bytes 4 (length body) ++ body)

-- `HEADER_BYTES.checked_add(declared)` cannot overflow below the limit.
pub checked_body : Bytes → ℕ → Wire Bytes
checked_body frame limit = do
  declared ← parse_frame_length frame
  guard (leb declared limit) frame_too_large
  guard (length frame == header_bytes + declared) length_mismatch
  ok (drop header_bytes frame)

module _ (C : Cbor) where
  pub encode_request_frame : TransferRequest → Wire Bytes
  encode_request_frame request = do body ← encode_request_body C request; encode_frame body

  pub decode_request_frame : Bytes → Wire TransferRequest
  decode_request_frame frame = do
    body ← checked_body frame max_request_body_bytes
    decode_request_body C body

  pub encode_response_frame : TransferResponse → Wire Bytes
  encode_response_frame response = do body ← encode_response_body C response; encode_frame body

  pub decode_response_frame : Bytes → Wire TransferResponse
  decode_response_frame frame = do
    body ← checked_body frame max_offer_body_bytes
    decode_response_body C body
