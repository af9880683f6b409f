-- ===== src/Protocol/Envelope.antt =====
-- crates/protocol/src/envelope.rs: the plaintext envelope. A name is its UTF-8 bytes.
pub mod Codec
use envshare.Prelude.{
  ℕ, ◌+◌, ◌≡◌, Bool, true, false, not, ◌&&◌, ◌||◌, Option, none, some, List, [], ◌∷◌, ◌++◌, leb,
  ltb, ◌==◌, if◌then◌else◌, is_empty, length, Bytes, Result, ok, err, ◌>>=◌, ◌>>◌, guard, ok_or,
}
use envshare.Cbor.{Cbor, ItemType, null, string, other, has_length}
use envshare.Protocol.Limits.{max_payload_bytes, max_envelope_bytes, max_suggested_name_bytes}

pub data ContentType : Type 0 where
  dotenv_raw dotenv_normalized : ContentType

pub data EnvelopeError : Type 0 where
  payload_too_large invalid_suggested_name invalid_timestamps encoded_too_large : EnvelopeError
  invalid_encoding : EnvelopeError

abbrev Checked {ℓ} : Type ℓ → Type ℓ
Checked A = Result EnvelopeError A

-- `content_type as u8`
unfoldable pub content_type_as_u8 : ContentType → ℕ
content_type_as_u8 dotenv_raw = 0
content_type_as_u8 dotenv_normalized = 1

-- `ContentType::try_from`
unfoldable pub content_type_try_from : ℕ → Checked ContentType
content_type_try_from value =
    if value == 0
    then ok dotenv_raw
    else if value == 1
    then ok dotenv_normalized
    else err invalid_encoding

-- `chars().any(char::is_control)` on UTF-8: U+0000 to U+001F, U+007F, and U+0080 to U+009F, which
-- are 0xC2 and a byte up to 0x9F.
unfoldable pub has_control : Bytes → Bool
has_control [] = false
has_control (b ∷ []) = ltb b 32 || b == 127
has_control (b ∷ c ∷ s) = ltb b 32 || b == 127 || (b == 0xc2 && leb c 0x9f) || has_control (c ∷ s)

unfoldable pub has_separator : Bytes → Bool
has_separator [] = false
has_separator (b ∷ s) = b == b'/' || b == 92 || has_separator s

-- `SuggestedName::new`
unfoldable pub suggested_name_new : Bytes → Checked Bytes
suggested_name_new value = do
  guard
      (not (
        is_empty value
        || ltb max_suggested_name_bytes (length value)
        || has_control value
        || has_separator value))
      invalid_suggested_name
  ok value

pub record SecretEnvelope : Type 0 where
  pub content_type : ContentType
  pub suggested_name : Option Bytes
  pub created_at_unix_ms : ℕ
  pub expires_at_unix_ms : ℕ
  pub payload : Bytes

-- `SecretEnvelope::new`
unfoldable pub new : ContentType → Option Bytes → ℕ → ℕ → Bytes → Checked SecretEnvelope
new content_type suggested_name created_at_unix_ms expires_at_unix_ms payload = do
  guard (leb (length payload) max_payload_bytes) payload_too_large
  guard (leb created_at_unix_ms expires_at_unix_ms) invalid_timestamps
  ok (record {
    content_type = content_type;
    suggested_name = suggested_name;
    created_at_unix_ms = created_at_unix_ms;
    expires_at_unix_ms = expires_at_unix_ms;
    payload = payload;
  })

module _ (C : Cbor) where
  put_name : Option Bytes → Bytes
  put_name (some name) = C.put_str name
  put_name none = C.put_null

  unfoldable pub body : SecretEnvelope → Bytes
  unfolding put_name
  body envelope =
      C.put_map 6
      ++ (C.put_uint 0
          ++ (C.put_uint 1
              ++ (C.put_uint 1
                  ++ (C.put_uint (content_type_as_u8 envelope.content_type)
                      ++ (C.put_uint 2
                          ++ (put_name envelope.suggested_name
                              ++ (C.put_uint 3
                                  ++ (C.put_uint envelope.created_at_unix_ms
                                      ++ (C.put_uint 4
                                          ++ (C.put_uint envelope.expires_at_unix_ms
                                              ++ (C.put_uint 5
                                                  ++ C.put_bytes envelope.payload)))))))))))

  unfoldable pub encode : SecretEnvelope → Checked Bytes
  encode envelope = do
    guard (leb (length (body envelope)) max_envelope_bytes) encoded_too_large
    ok (body envelope)

  -- The input after the key.
  unfoldable pub expect_key : ℕ → Bytes → Checked Bytes
  expect_key expected decoder = do
    (key, decoder) ← ok_or (C.get_u8 decoder) invalid_encoding
    guard (key == expected) invalid_encoding
    ok decoder

  -- The `match` on the type of the next item.
  decode_name : ItemType → Bytes → Checked (Option Bytes × Bytes)
  decode_name null decoder = do
    decoder ← ok_or (C.get_null decoder) invalid_encoding
    ok (none, decoder)
  decode_name string decoder = do
    (name, decoder) ← ok_or (C.get_str decoder) invalid_encoding
    name ← suggested_name_new name
    ok (some name, decoder)
  decode_name other decoder = err invalid_encoding

  -- `decode` after the check of the size.
  unfoldable pub decode_fields : Bytes → Checked SecretEnvelope
  unfolding decode_name
  decode_fields encoded = do
    (fields, decoder) ← ok_or (C.get_map encoded) invalid_encoding
    guard (has_length fields 6) invalid_encoding
    decoder ← expect_key 0 decoder
    (version, decoder) ← ok_or (C.get_u16 decoder) invalid_encoding
    guard (version == 1) invalid_encoding
    decoder ← expect_key 1 decoder
    (content, decoder) ← ok_or (C.get_u8 decoder) invalid_encoding
    content_type ← content_type_try_from content
    decoder ← expect_key 2 decoder
    type ← ok_or (C.datatype decoder) invalid_encoding
    (suggested_name, decoder) ← decode_name type decoder
    decoder ← expect_key 3 decoder
    (created_at, decoder) ← ok_or (C.get_u64 decoder) invalid_encoding
    decoder ← expect_key 4 decoder
    (expires_at, decoder) ← ok_or (C.get_u64 decoder) invalid_encoding
    decoder ← expect_key 5 decoder
    (payload, decoder) ← ok_or (C.get_bytes decoder) invalid_encoding
    guard (leb (length payload) max_payload_bytes) payload_too_large
    guard (is_empty decoder) invalid_encoding
    new content_type suggested_name created_at expires_at payload

  unfoldable pub decode : Bytes → Checked SecretEnvelope
  decode encoded = do
    guard (not (is_empty encoded) && leb (length encoded) max_envelope_bytes) encoded_too_large
    decode_fields encoded
