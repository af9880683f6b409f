-- ===== src/Protocol/Envelope/Codec.antt =====
-- crates/protocol/src/envelope.rs: the codec of envelopes.
use envshare.Prelude.{
  ℕ, ◌^◌, ◌≤◌, ◌<◌, ◌≡◌, refl, ap, sym, ◌∙◌, true, false, not, ◌&&◌, Option, none, some, [], ◌∷◌,
  ◌++◌, append-nil, append_assoc, arith, leb, ==_refl, le→leb, is_empty, length, length-append-le,
  Bytes, ok, ◌>>◌, guard, guard-bind-eq-ok, ok-inj, ◌≢◌,
}
use envshare.Cbor.{Cbor, IsCbor, ItemType, null, string, has_length}
use envshare.Protocol.Limits.{max_payload_bytes, max_envelope_bytes, max_suggested_name_bytes}
use envshare.Protocol.Envelope.{
  ContentType, dotenv_raw, dotenv_normalized, SecretEnvelope, invalid_encoding, content_type_as_u8,
  content_type_try_from, suggested_name_new, new, put_name, body, encode, expect_key, decode_name,
  decode_fields, decode,
}

-- What `SuggestedName` and `String` guarantee of an optional name.
pub data IsName (C : Cbor) : Option Bytes → Type 0 where
  unnamed : IsName C none
  named :
      (name : Bytes)
      → C.is_utf8 name ≡ true
      → suggested_name_new name ≡ ok name
      → IsName C (some name)

-- The envelopes that `new` makes, with a timestamp in a u64.
pub record IsEnvelope (C : Cbor) (e : SecretEnvelope) : Type 0 where
  pub name : IsName C e.suggested_name
  pub size : length e.payload ≤ max_payload_bytes
  pub timestamps : e.created_at_unix_ms ≤ e.expires_at_unix_ms
  pub expires : e.expires_at_unix_ms < 2 ^ 64

content_type_lem : (c : ContentType) → content_type_try_from (content_type_as_u8 c) ≡ ok c
unfolding content_type_try_from content_type_as_u8
content_type_lem dotenv_raw = refl
content_type_lem dotenv_normalized = refl

content_type-lt : (c : ContentType) → content_type_as_u8 c < 2
unfolding content_type_as_u8
content_type-lt dotenv_raw = omega arith
content_type-lt dotenv_normalized = omega arith

suggested_name_new-le :
    (name : Bytes) → suggested_name_new name ≡ ok name → length name ≤ max_suggested_name_bytes
unfolding suggested_name_new
suggested_name_new-le name h = ground arith

named-lt : (name : Bytes) → suggested_name_new name ≡ ok name → length name < 2 ^ 64
named-lt name h = omega (arith, suggested_name_new-le name h)

is_empty-append : (xs ys : Bytes) → 0 < length xs → is_empty (xs ++ ys) ≡ false
is_empty-append [] ys h = absurd (omega arith)
is_empty-append (x ∷ xs) ys h = refl

module _ (C : Cbor) (L : IsCbor C) where
  -- The body with more input behind it.
  abbrev tail_onto : SecretEnvelope → Bytes → Bytes
  tail_onto e rest =
      C.put_uint 3
      ++ (C.put_uint e.created_at_unix_ms
          ++ (C.put_uint 4
              ++ (C.put_uint e.expires_at_unix_ms
                  ++ (C.put_uint 5 ++ (C.put_bytes e.payload ++ rest)))))

  body_onto : SecretEnvelope → Bytes → Bytes
  body_onto e rest =
      C.put_map 6
      ++ (C.put_uint 0
          ++ (C.put_uint 1
              ++ (C.put_uint 1
                  ++ (C.put_uint (content_type_as_u8 e.content_type)
                      ++ (C.put_uint 2 ++ (put_name C e.suggested_name ++ tail_onto e rest))))))

  body-append : (e : SecretEnvelope) (rest : Bytes) → body C e ++ rest ≡ body_onto e rest
  unfolding body body_onto
  body-append e rest = simp append_assoc

  expect_key_lem :
      (k : ℕ) (rest : Bytes) → k < 256 → expect_key C k (C.put_uint k ++ rest) ≡ ok rest
  unfolding expect_key
  expect_key_lem k rest h = rw (L.u8 k rest h, ==_refl k)

  decode_name_lem :
      (name : Option Bytes) (rest : Bytes)
      → IsName C name
      → (type : ItemType) × (C.datatype (put_name C name ++ rest) ≡ some type)
        × (decode_name C type (put_name C name ++ rest) ≡ ok (name, rest))
  unfolding decode_name put_name
  decode_name_lem none rest unnamed = (null, L.datatype_null rest, rw (L.nil rest))
  decode_name_lem (some name) rest (named _ u h) =
      let small = named-lt name h in
      (string, L.datatype_str name rest small, rw (L.str name rest small u, h))

  length-put_name : (name : Option Bytes) → IsName C name → length (put_name C name) ≤ 137
  unfolding put_name
  length-put_name none unnamed = omega (arith, L.size_null)
  length-put_name (some name) (named _ u h) =
      omega (arith, L.size_str name, suggested_name_new-le name h)

  body-size : (e : SecretEnvelope) → IsEnvelope C e → length (body C e) ≤ max_envelope_bytes
  unfolding body
  body-size e v = omega (
    arith,
    v.size,
    length-append-le _ _ (L.size_map 6) (
        length-append-le _ _ (L.size_uint 0) (
          length-append-le _ _ (L.size_uint 1) (
            length-append-le _ _ (L.size_uint 1) (
              length-append-le _ _ (L.size_uint (content_type_as_u8 e.content_type)) (
                length-append-le _ _ (L.size_uint 2) (
                  length-append-le _ _ (length-put_name e.suggested_name v.name) (
                    length-append-le _ _ (L.size_uint 3) (
                      length-append-le _ _ (L.size_uint e.created_at_unix_ms) (
                        length-append-le _ _ (L.size_uint 4) (
                          length-append-le _ _ (L.size_uint e.expires_at_unix_ms) (
                            length-append-le _ _ (L.size_uint 5)
                              (L.size_bytes e.payload)))))))))))),
  )

  decode_fields-body_onto :
      (e : SecretEnvelope) (rest : Bytes)
      → IsEnvelope C e
      → decode_fields C (body_onto e rest) ≡ (guard (is_empty rest) invalid_encoding >> ok e)
  unfolding decode_fields body_onto new has_length
  decode_fields-body_onto e rest v =
      let (type, d, n) = decode_name_lem e.suggested_name (tail_onto e rest) v.name in
      rw (
        L.map 6 _ (omega arith),
        expect_key_lem 0 _ (omega arith),
        L.u16 1 _ (omega arith),
        expect_key_lem 1 _ (omega arith),
        L.u8 (content_type_as_u8 e.content_type) _ (omega (arith, content_type-lt e.content_type)),
        content_type_lem e.content_type,
        expect_key_lem 2 _ (omega arith),
        d,
        n,
        expect_key_lem 3 _ (omega arith),
        L.u64 e.created_at_unix_ms _ (omega arith),
        expect_key_lem 4 _ (omega arith),
        L.u64 e.expires_at_unix_ms _ (omega arith),
        expect_key_lem 5 _ (omega arith),
        L.bytes e.payload rest (omega arith),
        le→leb (length e.payload) max_payload_bytes v.size,
        le→leb e.created_at_unix_ms e.expires_at_unix_ms v.timestamps,
      )

  decode_fields-body : (e : SecretEnvelope) → IsEnvelope C e → decode_fields C (body C e) ≡ ok e
  decode_fields-body e v =
      ap (decode_fields C) (sym (append-nil (body C e)) ∙ body-append e [])
      ∙ decode_fields-body_onto e [] v

  body-not-empty : (e : SecretEnvelope) → is_empty (body C e) ≡ false
  unfolding body
  body-not-empty e = is_empty-append _ _ (L.some_map 6)

  -- With a CBOR codec that reads what it wrote, every envelope that `new` can make, with an expiry
  -- of 64 bits, is encoded, and decodes to itself.
  pub decode-encode :
      (e : SecretEnvelope)
      → IsEnvelope C e
      → (encoded : Bytes) × (encode C e ≡ ok encoded) × (decode C encoded ≡ ok e)
  unfolding encode decode
  decode-encode e v = (
    body C e,
    rw (le→leb _ max_envelope_bytes (body-size e v)),
    rw (body-not-empty e, le→leb _ max_envelope_bytes (body-size e v)) (decode_fields-body e v),
  )

  -- With a CBOR codec that reads what it wrote, the encoding of an envelope that `new` can make is
  -- refused when at least one byte follows it.
  pub decode_trailing :
      (e : SecretEnvelope) (b : ℕ) (rest encoded : Bytes)
      → IsEnvelope C e
      → encode C e ≡ ok encoded
      → (c : SecretEnvelope) → decode C (encoded ++ b ∷ rest) ≢ ok c
  unfolding encode decode
  decode_trailing e b rest encoded v h c k =
      let (t, is) = guard-bind-eq-ok (leb (length (body C e)) max_envelope_bytes) _ _ h in
      let (t', r) =
        guard-bind-eq-ok
          (not (is_empty (encoded ++ b ∷ rest))
            && leb (length (encoded ++ b ∷ rest)) max_envelope_bytes)
          _ _ k in
      cc (r, ok-inj is, body-append e (b ∷ rest), decode_fields-body_onto e (b ∷ rest) v)

-- The name, if there is one, is one that `SuggestedName::new` accepts.
pub IsAccepted : Option Bytes → Type 0
IsAccepted none = Unit {0}
IsAccepted (some name) = suggested_name_new name ≡ ok name

accepted :
    (o : Option Bytes) → ((n : Bytes) → o ≡ some n → suggested_name_new n ≡ ok n) → IsAccepted o
unfolding IsAccepted
accepted none h = tt
accepted (some n) h = h n refl

-- What the decoder guarantees of any envelope that it returns, from whatever bytes.
pub record IsChecked (e : SecretEnvelope) : Type 0 where
  pub size : length e.payload ≤ max_payload_bytes
  pub timestamps : e.created_at_unix_ms ≤ e.expires_at_unix_ms
  pub name : IsAccepted e.suggested_name

decode_fields-name :
    (C : Cbor) (encoded n : Bytes) (e : SecretEnvelope)
    → decode_fields C encoded ≡ ok e
    → e.suggested_name ≡ some n
    → suggested_name_new n ≡ ok n
unfolding decode_fields new decode_name suggested_name_new
decode_fields-name C encoded n e h s = ground arith

decode_fields-bounds :
    (C : Cbor) (encoded : Bytes) (e : SecretEnvelope)
    → decode_fields C encoded ≡ ok e
    → (length e.payload ≤ max_payload_bytes) × (e.created_at_unix_ms ≤ e.expires_at_unix_ms)
unfolding decode_fields new
decode_fields-bounds C encoded e h = ground arith

-- Whatever bytes are decoded, with any CBOR codec, an envelope that `decode` returns has a payload
-- within the limit, ordered timestamps and no name that `SuggestedName::new` refuses.
pub decode-IsChecked :
    (C : Cbor) (encoded : Bytes) (e : SecretEnvelope) → decode C encoded ≡ ok e → IsChecked e
unfolding decode
decode-IsChecked C encoded e h =
    let (t, r) =
      guard-bind-eq-ok (not (is_empty encoded) && leb (length encoded) max_envelope_bytes) _ _ h in
    let (size, timestamps) = decode_fields-bounds C encoded e r in
    record {
      size = size;
      timestamps = timestamps;
      name = accepted e.suggested_name (λ n s. decode_fields-name C encoded n e r s);
    }
