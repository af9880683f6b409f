-- ===== src/Protocol/Frame/RoundTrip.antt =====
-- crates/protocol/src/frame.rs: the codec of frames.
use envshare.Prelude.{
  ℕ, ◌^◌, ◌≤◌, ◌<◌, ◌≡◌, refl, ap, ap₂, sym, ◌∙◌, ◌↔◌, [], ◌∷◌, ◌++◌, arith, lt→ltb, All, IsByte,
  length, length-append, take_append_of_length, drop_append_of_length, Bytes, to_be_bytes,
  from_be_bytes, length-to_be_bytes, from_be_bytes-u32, ok,
}
use envshare.Cbor.{Cbor, IsCbor}
use envshare.Protocol.Limits.{max_offer_body_bytes}
use envshare.Protocol.Message.{TransferRequest, TransferResponse}
use envshare.Protocol.Body.{max_request_body_bytes}
use envshare.Protocol.Body.RoundTrip.{
  IsRequest, IsResponse, decode_request_body-encode_request_body,
  decode_response_body-encode_response_body,
}
use envshare.Protocol.Frame.{
  parse_frame_length, encode_frame, checked_body, encode_request_frame, decode_request_frame,
  encode_response_frame, decode_response_frame,
}

encode_frame_lem :
    (body : Bytes)
    → 0 < length body
    → length body < 2 ^ 32
    → encode_frame body ≡ ok (to_be_bytes 4 (length body) ++ body)
unfolding encode_frame
encode_frame_lem [] p h = absurd (omega arith)
encode_frame_lem (b ∷ body) p h = rw (lt→ltb (length (b ∷ body)) (2 ^ 32) h)

checked_body_lem :
    (body : Bytes) (limit : ℕ)
    → 0 < length body
    → length body ≤ limit
    → limit < 2 ^ 32
    → checked_body (to_be_bytes 4 (length body) ++ body) limit ≡ ok body
unfolding checked_body parse_frame_length
checked_body_lem body limit p h l = ground (
  arith,
  take_append_of_length 4 (to_be_bytes 4 (length body)) body,
  drop_append_of_length 4 (to_be_bytes 4 (length body)) body,
  length-append (to_be_bytes 4 (length body)) body,
  length-to_be_bytes 4 (length body),
  from_be_bytes-u32 (length body),
)

module _ (C : Cbor) (L : IsCbor C) where
  -- With a CBOR codec that reads what it wrote, every request whose fields have their sizes has a
  -- frame, and the frame decodes to it.
  pub decode_request_frame-encode_request_frame :
      (r : TransferRequest)
      → IsRequest r
      → (frame : Bytes) × (encode_request_frame C r ≡ ok frame)
        × (decode_request_frame C frame ≡ ok r)
  unfolding encode_request_frame decode_request_frame
  decode_request_frame-encode_request_frame r v =
      let (body, e, some_bytes, small, d) = decode_request_body-encode_request_body C L r v in
      (
        to_be_bytes 4 (length body) ++ body,
        rw (e, encode_frame_lem body some_bytes (omega arith)),
        rw (checked_body_lem body max_request_body_bytes some_bytes small (omega arith)) d,
      )

  -- With a CBOR codec that reads what it wrote, every response whose fields have their sizes has a
  -- frame, and the frame decodes to it.
  pub decode_response_frame-encode_response_frame :
      (r : TransferResponse)
      → IsResponse r
      → (frame : Bytes) × (encode_response_frame C r ≡ ok frame)
        × (decode_response_frame C frame ≡ ok r)
  unfolding encode_response_frame decode_response_frame
  decode_response_frame-encode_response_frame r v =
      let (body, e, some_bytes, small, d) = decode_response_body-encode_response_body C L r v in
      (
        to_be_bytes 4 (length body) ++ body,
        rw (e, encode_frame_lem body some_bytes (omega arith)),
        rw (checked_body_lem body max_offer_body_bytes some_bytes small (omega arith)) d,
      )

to_be_bytes-from_be_bytes :
    (a b c d : ℕ)
    → a < 256
    → b < 256
    → c < 256
    → d < 256
    → to_be_bytes 4 (from_be_bytes (a ∷ b ∷ c ∷ d ∷ [])) ≡ a ∷ b ∷ c ∷ d ∷ []
unfolding to_be_bytes from_be_bytes
to_be_bytes-from_be_bytes a b c d ha hb hc hd =
    ap₂ ◌∷◌ (omega arith)
      (ap₂ ◌∷◌ (omega arith) (ap₂ ◌∷◌ (omega arith) (ap₂ ◌∷◌ (omega arith) refl)))

checked_body_sound :
    (frame body : Bytes) (limit : ℕ)
    → All IsByte frame
    → checked_body frame limit ≡ ok body
    → (frame ≡ to_be_bytes 4 (length body) ++ body) × (0 < length body) × (length body ≤ limit)
unfolding checked_body parse_frame_length
checked_body_sound (a ∷ b ∷ c ∷ d ∷ rest) body limit v h =
    let size : from_be_bytes (a ∷ b ∷ c ∷ d ∷ []) ≡ length rest = ground arith in
    let is : rest ≡ body = ground arith in
    let header = to_be_bytes-from_be_bytes a b c d v.0 v.1.0 v.1.1.0 v.1.1.1.0 in
    (
      ap (λ x. x ++ rest) (sym header) ∙ ap₂ (λ n x. to_be_bytes 4 n ++ x) (size ∙ ap length is) is,
      ground arith,
      ground arith,
    )
checked_body_sound [] body limit v h = cc
checked_body_sound (a ∷ []) body limit v h = cc
checked_body_sound (a ∷ b ∷ []) body limit v h = cc
checked_body_sound (a ∷ b ∷ c ∷ []) body limit v h = cc

-- For a limit of less than 2 ^ 32 and a frame of bytes, `checked_body` returns a body exactly when
-- the frame is the length of the body in four big-endian bytes and then the body, which is not
-- empty and within the limit.
pub checked_body_iff :
    (frame body : Bytes) (limit : ℕ)
    → limit < 2 ^ 32
    → All IsByte frame
    → (checked_body frame limit ≡ ok body)
      ↔ ((frame ≡ to_be_bytes 4 (length body) ++ body) × (0 < length body) × (length body ≤ limit))
checked_body_iff frame body limit l b =
    (checked_body_sound frame body limit b, λ h. rw h.0 (checked_body_lem body limit h.1 h.2 l))
