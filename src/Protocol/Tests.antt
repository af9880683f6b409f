-- ===== src/Protocol/Tests.antt =====
-- Runs and instances for crates/protocol, with the sample codec.
use envshare.Prelude.{
  ◌≡◌, refl, ◌<◌, ◌≤◌, ◌↔◌, true, some, [], ◌∷◌, ◌++◌, replicate, Bytes, bytes_of, to_be_bytes,
  from_be_bytes, ok, arith, ◌≢◌,
}
use envshare.Cbor.{Cbor, has_length}
use envshare.Cbor.Sample.{sample, sample-IsCbor}
use envshare.Protocol.Envelope.{
  SecretEnvelope, dotenv_normalized, suggested_name_new, new, decode_fields, expect_key,
  content_type_try_from, body, encode, decode, content_type_as_u8, has_control, has_separator,
}
use envshare.Protocol.Envelope.Codec.{
  IsEnvelope, IsChecked, named, decode-encode, decode_trailing, decode-IsChecked,
}
use envshare.Protocol.Message.{TransferRequest, TransferResponse, open_request, completed}
use envshare.Protocol.Body.RoundTrip.{IsRequest, IsResponse}
use envshare.Protocol.Frame.{
  checked_body, encode_request_frame, decode_request_frame, encode_response_frame,
  decode_response_frame,
}
use envshare.Protocol.Frame.RoundTrip.{
  checked_body_iff, decode_request_frame-encode_request_frame,
  decode_response_frame-encode_response_frame,
}

abbrev envelope : SecretEnvelope
envelope = record {
  content_type = dotenv_normalized;
  suggested_name = some (bytes_of ".env");
  created_at_unix_ms = 1700000000000;
  expires_at_unix_ms = 1700000600000;
  payload = bytes_of "KEY=value";
}

name_new : suggested_name_new (bytes_of ".env") ≡ ok (bytes_of ".env")
unfolding suggested_name_new has_control has_separator
name_new = refl

name_utf8 : Cbor.is_utf8 sample (bytes_of ".env") ≡ true
unfolding sample
name_utf8 = refl

envelope-IsEnvelope : IsEnvelope sample envelope
envelope-IsEnvelope = record {
  name = named (bytes_of ".env") name_utf8 name_new;
  size = omega arith;
  timestamps = omega arith;
  expires = omega arith;
}

encoded : encode sample envelope ≡ ok (body sample envelope)
unfolding encode body sample content_type_as_u8 to_be_bytes
encoded = refl

decoded : decode sample (body sample envelope) ≡ ok envelope
unfolding decode body sample content_type_as_u8 to_be_bytes decode_fields has_length expect_key
    content_type_try_from suggested_name_new has_control has_separator from_be_bytes new
decoded = refl

decode-encode_example :
    (bytes : Bytes) × (encode sample envelope ≡ ok bytes) × (decode sample bytes ≡ ok envelope)
decode-encode_example = decode-encode sample sample-IsCbor envelope envelope-IsEnvelope

decode_trailing_example : decode sample (body sample envelope ++ 0 ∷ []) ≢ ok envelope
decode_trailing_example =
    decode_trailing sample sample-IsCbor envelope 0 [] (body sample envelope) envelope-IsEnvelope
      encoded envelope

decode-IsChecked_example : IsChecked envelope
decode-IsChecked_example = decode-IsChecked sample (body sample envelope) envelope decoded

abbrev request : TransferRequest
request = open_request (record {
  protocol_version = 1;
  room_id = replicate 16 1;
  receiver_nonce = replicate 32 2;
  receiver_proof = replicate 32 3;
})

abbrev response : TransferResponse
response = completed (record { protocol_version = 1; claim_id = replicate 16 4 })

checked_body_iff_example :
    (checked_body (0 ∷ 0 ∷ 0 ∷ 2 ∷ 7 ∷ 8 ∷ []) 1024 ≡ ok (7 ∷ 8 ∷ []))
    ↔ (((0 ∷ 0 ∷ 0 ∷ 2 ∷ 7 ∷ 8 ∷ []) ≡ to_be_bytes 4 2 ++ 7 ∷ 8 ∷ []) × (0 < 2) × (2 ≤ 1024))
checked_body_iff_example =
    checked_body_iff (0 ∷ 0 ∷ 0 ∷ 2 ∷ 7 ∷ 8 ∷ []) (7 ∷ 8 ∷ []) 1024 (omega arith) (omega arith)

request-IsRequest : IsRequest request
request-IsRequest = record { version = omega arith; room = refl; nonce = refl; proof = refl }

response-IsResponse : IsResponse response
response-IsResponse = record { version = omega arith; claim = refl }

decode_request_frame-encode_request_frame_example :
    (frame : Bytes) × (encode_request_frame sample request ≡ ok frame)
    × (decode_request_frame sample frame ≡ ok request)
decode_request_frame-encode_request_frame_example =
    decode_request_frame-encode_request_frame sample sample-IsCbor request request-IsRequest

decode_response_frame-encode_response_frame_example :
    (frame : Bytes) × (encode_response_frame sample response ≡ ok frame)
    × (decode_response_frame sample frame ≡ ok response)
decode_response_frame-encode_response_frame_example =
    decode_response_frame-encode_response_frame sample sample-IsCbor response response-IsResponse
