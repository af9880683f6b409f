-- ===== src/Code/ShareCode/RoundTrip.antt =====
-- crates/code/src/lib.rs: the parser and `Display`.
use envshare.Prelude.{
  ℕ, zero, suc, ◌+◌, ◌<◌, ◌≡◌, refl, ap, ap₂, sym, ◌∙◌, some, List, [], ◌∷◌, map, map-append, arith,
  get_or, All, All-append, Bytes, IsByte, ok,
}
use envshare.Primitives.{IsSha256}
use envshare.Code.Alphabet.{encode_symbol, decode_symbol, to_ascii_uppercase, encode_secret}
use envshare.Code.Alphabet.Ranges.{IsSymbol, encode_secret_range, encode_symbol-IsLetter}
use envshare.Code.ShareCode.{checksum_symbols, symbols, to_string, from_str, write_symbols}
use envshare.Code.ShareCode.Parser.{without_dashes}
use envshare.Code.ShareCode.Accepts.{IsSecret, Spells, values, from_str_accepts}

get_or-IsByte : (xs : Bytes) (i : ℕ) → All IsByte xs → get_or xs i 0 < 256
get_or-IsByte [] i h = omega arith
get_or-IsByte (x ∷ xs) zero h = h.0
get_or-IsByte (x ∷ xs) (suc i) h = get_or-IsByte xs i h.1

map-decode-encode :
    (vs : List ℕ) → All IsSymbol vs → map decode_symbol (map encode_symbol vs) ≡ map some vs
map-decode-encode [] h = refl
map-decode-encode (v ∷ vs) h =
    ap₂ ◌∷◌ (encode_symbol-IsLetter v h.0).decodes (map-decode-encode vs h.1)

-- The dashes that `Display` writes are the only ones.
without_dashes-write_symbols :
    (index : ℕ) (vs : List ℕ)
    → All IsSymbol vs
    → without_dashes (write_symbols index (map encode_symbol vs)) ≡ map encode_symbol vs
unfolding without_dashes write_symbols
without_dashes-write_symbols index [] h = refl
without_dashes-write_symbols index (v ∷ vs) h =
    ground (
      arith,
      without_dashes-write_symbols (index + 1) vs h.1,
      (encode_symbol-IsLetter v h.0).no_dash,
    )

module _ (sha256 : Bytes → Bytes) (is : IsSha256 sha256) where
  checksum_symbols-IsSymbol : (secret : Bytes) → All IsSymbol (checksum_symbols sha256 secret)
  unfolding checksum_symbols
  checksum_symbols-IsSymbol secret =
      omega
        (arith, get_or-IsByte (sha256 _) 0 (is.bytes _), get_or-IsByte (sha256 _) 1 (is.bytes _))

  values-IsSymbol : (secret : Bytes) → IsSecret secret → All IsSymbol (values sha256 secret)
  values-IsSymbol secret s =
      All-append IsSymbol _ _ (encode_secret_range secret s.size).1
        (checksum_symbols-IsSymbol secret)

  symbols-values :
      (secret : Bytes) → symbols sha256 secret ≡ map encode_symbol (values sha256 secret)
  unfolding symbols
  symbols-values secret = sym (map-append encode_symbol (encode_secret secret) _)

  to_string-Spells :
      (secret : Bytes) → IsSecret secret → Spells sha256 (to_string sha256 secret) secret
  unfolding to_string without_dashes to_ascii_uppercase
  to_string-Spells secret s =
      let letters =
        ap (λ t. without_dashes (write_symbols 0 t)) (symbols-values secret)
        ∙ without_dashes-write_symbols 0 (values sha256 secret) (values-IsSymbol secret s) in
      record {
        prefix = refl;
        letters =
            ap (map decode_symbol) letters
            ∙ map-decode-encode (values sha256 secret) (values-IsSymbol secret s);
      }

  -- With a digest of 32 bytes, `from_str` returns a secret of 20 bytes from the text that
  -- `to_string` gives for it.
  pub from_str-to_string :
      (secret : Bytes) → IsSecret secret → from_str sha256 (to_string sha256 secret) ≡ ok secret
  from_str-to_string secret s = (from_str_accepts sha256 _ secret).1 (s, to_string-Spells secret s)
