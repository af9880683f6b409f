-- ===== src/Protocol/Body/RoundTrip.antt =====
-- crates/protocol/src/message.rs: the codec of bodies.
use envshare.Prelude.{
  ℕ, ◌+◌, ◌≤◌, ◌<◌, ◌≡◌, refl, ap, sym, ◌∙◌, false, some, [], ◌∷◌, ◌++◌, append-nil, arith, le→leb,
  is_empty, length, length-append, length-append-le, Bytes, Result, ok,
}
use native.Mathlib.Nat.{le_refl}
use envshare.Cbor.{Cbor, IsCbor}
use envshare.Protocol.Limits.{max_payload_bytes, max_ciphertext_bytes, max_offer_body_bytes}
use envshare.Protocol.Errors.{code_as_u8}
use envshare.Protocol.Message.{
  OfferResponse, TransferRequest, open_request, acknowledge, TransferResponse, offer, completed,
  error, encode_open, encode_acknowledgement, encode_offer, encode_completed, encode_error,
  decode_open, decode_acknowledgement, decode_offer, decode_completed, decode_error,
}
use envshare.Protocol.Message.Codec.{
  IsOpenRequest, IsAcknowledgeRequest, IsOfferResponse, IsCompletedResponse, IsErrorResponse,
  array_lem, decode_open-encode_open, decode_acknowledgement-encode_acknowledgement,
  decode_offer-encode_offer, decode_completed-encode_completed, decode_error-encode_error,
}
use envshare.Protocol.Body.{
  max_request_body_bytes, validate_offer, finish_decode, request_items, encode_request_body,
  decode_request, decode_request_body, response_items, validate_response, response_limit,
  encode_response_body, decode_response, decode_response_body,
}

abbrev pub IsRequest : TransferRequest → Type 0
IsRequest (open_request r) = IsOpenRequest r
IsRequest (acknowledge r) = IsAcknowledgeRequest r

abbrev pub IsResponse : TransferResponse → Type 0
IsResponse (offer r) = IsOfferResponse r
IsResponse (completed r) = IsCompletedResponse r
IsResponse (error r) = IsErrorResponse r

is_empty-append : (xs ys : Bytes) → 0 < length xs → is_empty (xs ++ ys) ≡ false
is_empty-append [] ys h = absurd (omega arith)
is_empty-append (x ∷ xs) ys h = refl

-- A decoder that consumes exactly the message.
ends :
    {A E : Type 0} (f : Bytes → Result E (A × Bytes)) (b : Bytes) {a : A}
    → f (b ++ []) ≡ ok (a, [])
    → f b ≡ ok (a, [])
ends f b h = ap f (sym (append-nil b)) ∙ h

validate_offer_lem : (r : OfferResponse) → IsOfferResponse r → validate_offer r ≡ ok tt
unfolding validate_offer
validate_offer_lem r v = rw (
  le→leb r.plaintext_length max_payload_bytes v.plaintext,
  le→leb (length r.ciphertext) max_ciphertext_bytes v.size,
)

validate_response_lem : (r : TransferResponse) → IsResponse r → validate_response r ≡ ok tt
unfolding validate_response
validate_response_lem (offer r) v = validate_offer_lem r v
validate_response_lem (completed r) v = refl
validate_response_lem (error r) v = refl

response_limit-le : (r : TransferResponse) → response_limit r ≤ max_offer_body_bytes
unfolding response_limit
response_limit-le (offer r) = omega arith
response_limit-le (completed r) = omega arith
response_limit-le (error r) = omega arith

module _ (C : Cbor) (L : IsCbor C) where
  length-request_items : (r : TransferRequest) → IsRequest r → length (request_items C r) ≤ 1015
  unfolding request_items encode_open encode_acknowledgement
  length-request_items (open_request r) v = omega (
    arith,
    v.room,
    v.nonce,
    v.proof,
    length-append-le _ _ (L.size_uint 0) (
        length-append-le _ _ (L.size_map 4) (
          length-append-le _ _ (L.size_uint 0) (
            length-append-le _ _ (L.size_uint r.protocol_version) (
              length-append-le _ _ (L.size_uint 1) (
                length-append-le _ _ (L.size_bytes r.room_id) (
                  length-append-le _ _ (L.size_uint 2) (
                    length-append-le _ _ (L.size_bytes r.receiver_nonce)
                      (length-append-le _ _ (L.size_uint 3) (L.size_bytes r.receiver_proof))))))))),
  )
  length-request_items (acknowledge r) v = omega (
    arith,
    v.claim,
    v.digest,
    v.proof,
    length-append-le _ _ (L.size_uint 1) (
        length-append-le _ _ (L.size_map 4) (
          length-append-le _ _ (L.size_uint 0) (
            length-append-le _ _ (L.size_uint r.protocol_version) (
              length-append-le _ _ (L.size_uint 1) (
                length-append-le _ _ (L.size_bytes r.claim_id) (
                  length-append-le _ _ (L.size_uint 2) (
                    length-append-le _ _ (L.size_bytes r.ciphertext_digest) (
                      length-append-le _ _ (L.size_uint 3)
                        (L.size_bytes r.acknowledgement_proof))))))))),
  )

  decode_request-items :
      (r : TransferRequest)
      → IsRequest r
      → (kind : ℕ) × (decoder : Bytes) × (C.get_u8 (request_items C r) ≡ some (kind, decoder))
        × (decode_request C kind decoder ≡ ok (r, []))
  unfolding request_items decode_request
  decode_request-items (open_request r) v = (
    0,
    encode_open C r,
    L.u8 0 _ (omega arith),
    rw (ends (decode_open C) (encode_open C r) (decode_open-encode_open C L r [] v)),
  )
  decode_request-items (acknowledge r) v = (
    1,
    encode_acknowledgement C r,
    L.u8 1 _ (omega arith),
    rw (
        ends (decode_acknowledgement C) (encode_acknowledgement C r)
          (decode_acknowledgement-encode_acknowledgement C L r [] v)),
  )

  -- With a CBOR codec that reads what it wrote, every request whose fields have their sizes is
  -- encoded to a body that is not empty and within the limit, and the body decodes to it.
  pub decode_request_body-encode_request_body :
      (r : TransferRequest)
      → IsRequest r
      → (body : Bytes) × (encode_request_body C r ≡ ok body)
        × (0 < length body)
        × (length body ≤ max_request_body_bytes)
        × (decode_request_body C body ≡ ok r)
  unfolding encode_request_body decode_request_body finish_decode
  decode_request_body-encode_request_body r v =
      let body = C.put_array 2 ++ request_items C r in
      let small : length body ≤ max_request_body_bytes =
        omega (arith, length-append-le _ _ (L.size_array 2) (length-request_items r v)) in
      let (kind, decoder, k, d) = decode_request-items r v in
      (
        body,
        rw (le→leb _ max_request_body_bytes small),
        omega (arith, length-append (C.put_array 2) (request_items C r), L.some_array 2),
        small,
        rw (
          is_empty-append (C.put_array 2) (request_items C r) (L.some_array 2),
          le→leb _ max_request_body_bytes small,
          array_lem C L 2 (request_items C r) (omega arith),
          k,
          d,
        ),
      )

  length-response_items :
      (r : TransferResponse) → IsResponse r → length (response_items C r) + 9 ≤ response_limit r
  unfolding response_items response_limit encode_offer encode_completed encode_error
  length-response_items (offer r) v = omega (
    arith,
    v.claim,
    v.nonce,
    v.aead,
    v.size,
    v.digest,
    v.proof,
    length-append-le _ _ (L.size_uint 0) (
        length-append-le _ _ (L.size_map 10) (
          length-append-le _ _ (L.size_uint 0) (
            length-append-le _ _ (L.size_uint r.protocol_version) (
              length-append-le _ _ (L.size_uint 1) (
                length-append-le _ _ (L.size_bytes r.claim_id) (
                  length-append-le _ _ (L.size_uint 2) (
                    length-append-le _ _ (L.size_bytes r.sender_nonce) (
                      length-append-le _ _ (L.size_uint 3) (
                        length-append-le _ _ (L.size_bytes r.aead_nonce) (
                          length-append-le _ _ (L.size_uint 4) (
                            length-append-le _ _ (L.size_uint r.expires_at_unix_ms) (
                              length-append-le _ _ (L.size_uint 5) (
                                length-append-le _ _ (L.size_uint r.content_type) (
                                  length-append-le _ _ (L.size_uint 6) (
                                    length-append-le _ _ (L.size_uint r.plaintext_length) (
                                      length-append-le _ _ (L.size_uint 7) (
                                        length-append-le _ _ (L.size_bytes r.ciphertext) (
                                          length-append-le _ _ (L.size_uint 8) (
                                            length-append-le _ _ (L.size_bytes r.ciphertext_digest)
                                              (length-append-le _ _ (L.size_uint 9)
                                                (L.size_bytes r.sender_proof))))))))))))))))))))),
  )
  length-response_items (completed r) v = omega (
    arith,
    v.claim,
    length-append-le _ _ (L.size_uint 1) (
        length-append-le _ _ (L.size_map 2) (
          length-append-le _ _ (L.size_uint 0) (
            length-append-le _ _ (L.size_uint r.protocol_version)
              (length-append-le _ _ (L.size_uint 1) (L.size_bytes r.claim_id))))),
  )
  length-response_items (error r) v = omega (
    arith,
    length-append-le _ _ (L.size_uint 2) (
        length-append-le _ _ (L.size_map 2) (
          length-append-le _ _ (L.size_uint 0) (
            length-append-le _ _ (L.size_uint r.protocol_version)
              (length-append-le _ _ (L.size_uint 1) (L.size_uint (code_as_u8 r.code)))))),
  )

  decode_response-items :
      (r : TransferResponse)
      → IsResponse r
      → (kind : ℕ) × (decoder : Bytes) × (C.get_u8 (response_items C r) ≡ some (kind, decoder))
        × (decode_response C kind decoder ≡ ok (r, []))
  unfolding response_items decode_response
  decode_response-items (offer r) v = (
    0,
    encode_offer C r,
    L.u8 0 _ (omega arith),
    rw (
      ends (decode_offer C) (encode_offer C r) (decode_offer-encode_offer C L r [] v),
      validate_offer_lem r v,
    ),
  )
  decode_response-items (completed r) v = (
    1,
    encode_completed C r,
    L.u8 1 _ (omega arith),
    rw (
        ends (decode_completed C) (encode_completed C r)
          (decode_completed-encode_completed C L r [] v)),
  )
  decode_response-items (error r) v = (
    2,
    encode_error C r,
    L.u8 2 _ (omega arith),
    rw (ends (decode_error C) (encode_error C r) (decode_error-encode_error C L r [] v)),
  )

  -- With a CBOR codec that reads what it wrote, every response whose fields have their sizes is
  -- encoded to a body that is not empty and within the limit, and the body decodes to it.
  pub decode_response_body-encode_response_body :
      (r : TransferResponse)
      → IsResponse r
      → (body : Bytes) × (encode_response_body C r ≡ ok body)
        × (0 < length body)
        × (length body ≤ max_offer_body_bytes)
        × (decode_response_body C body ≡ ok r)
  unfolding encode_response_body decode_response_body finish_decode
  decode_response_body-encode_response_body r v =
      let body = C.put_array 2 ++ response_items C r in
      let fits : length body ≤ response_limit r = omega (
        arith,
        length-append-le _ _ (L.size_array 2) (le_refl (length (response_items C r))),
        length-response_items r v,
      ) in
      let small : length body ≤ max_offer_body_bytes = omega (arith, response_limit-le r) in
      let (kind, decoder, k, d) = decode_response-items r v in
      (
        body,
        rw (validate_response_lem r v, le→leb _ (response_limit r) fits),
        omega (arith, length-append (C.put_array 2) (response_items C r), L.some_array 2),
        small,
        rw (
          is_empty-append (C.put_array 2) (response_items C r) (L.some_array 2),
          le→leb _ max_offer_body_bytes small,
          array_lem C L 2 (response_items C r) (omega arith),
          k,
          d,
          le→leb _ (response_limit r) fits,
        ),
      )
