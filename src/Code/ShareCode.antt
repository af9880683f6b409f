-- ===== src/Code/ShareCode.antt =====
-- crates/code/src/lib.rs, checksum.rs and error.rs: the share code, its text and its parser. A
-- secret is the byte array of `ShareCodeSecret`. SHA-256 is a parameter.
pub mod Parser
pub mod Accepts
pub mod RoundTrip
use envshare.Prelude.{
  ℕ, zero, suc, ◌+◌, ◌-◌, ◌*◌, ◌/◌, ◌%◌, ◌≡◌, ◌&&◌, ◌||◌, Bool, Option, none, some, List, [], ◌∷◌,
  ◌++◌, map, ltb, leb, ◌==◌, if◌then◌else◌, get_or, take, drop, length, Bytes, bytes_of, bytes_eq,
  Result, ok, err, ◌>>=◌, ◌>>◌, guard, ok_or,
}
use envshare.Code.Alphabet.{
  encode_symbol, decode_symbol, to_ascii_uppercase, encode_secret, decode_secret,
}

abbrev code_prefix : Bytes
code_prefix = bytes_of "esh1"

abbrev secret_bytes : ℕ
secret_bytes = 20

abbrev secret_symbols : ℕ
secret_symbols = 32

abbrev pub normalized_symbols : ℕ
normalized_symbols = 38

abbrev checksum_domain : Bytes
checksum_domain = bytes_of "envshare/code-checksum/v1"

pub data ParseCodeError : Type 0 where
  invalid : ParseCodeError

-- Nothing of the input is in the error.
abbrev Parsed {ℓ} : Type ℓ → Type ℓ
Parsed A = Result ParseCodeError A

-- `for byte in input.bytes()`: `normalized` is the filled part of the buffer.
unfoldable pub normalize : Bytes → Bytes → Parsed Bytes
normalize normalized [] = ok normalized
normalize normalized (byte ∷ input) =
    let skip = normalize normalized input in
    let pushed = normalize (normalized ++ to_ascii_uppercase byte ∷ []) input in
    if byte == b'-'
    then skip
    else if leb 128 byte || length normalized == normalized_symbols
    then err invalid
    else pushed

-- `for (output, symbol) in …`
unfoldable pub decode_symbols : Bytes → Parsed (List ℕ)
decode_symbols [] = ok []
decode_symbols (symbol ∷ symbols) = do
  value ← ok_or (decode_symbol symbol) invalid
  values ← decode_symbols symbols
  ok (value ∷ values)

-- `Display::fmt` from the index on: a dash before every fourth symbol.
unfoldable pub write_symbols : ℕ → Bytes → Bytes
write_symbols index [] = []
write_symbols index (symbol ∷ symbols) =
    let rest = write_symbols (index + 1) symbols in
    if index % 4 == 0 then b'-' ∷ symbol ∷ rest else symbol ∷ rest

module _ (sha256 : Bytes → Bytes) where
  -- `digest[0] >> 3` and `((digest[0] & 0x07) << 2) | (digest[1] >> 6)`.
  unfoldable pub checksum_symbols : Bytes → List ℕ
  checksum_symbols secret =
      let digest = sha256 (checksum_domain ++ secret) in
      let first = get_or digest 0 0 in
      let second = get_or digest 1 0 in (first / 8) ∷ (first % 8 * 4 + second / 64) ∷ []

  unfoldable pub checksum_matches : Bytes → List ℕ → Bool
  checksum_matches secret supplied = bytes_eq (checksum_symbols secret) supplied

  unfoldable pub symbols : Bytes → Bytes
  symbols secret =
      map encode_symbol (encode_secret secret) ++ map encode_symbol (checksum_symbols secret)

  -- `Display::fmt`.
  unfoldable pub to_string : Bytes → Bytes
  to_string secret = code_prefix ++ write_symbols 0 (symbols secret)

  -- `from_str` from the 34 data symbols on.
  unfoldable pub decode_body : Bytes → Parsed Bytes
  decode_body encoded = do
    symbols ← decode_symbols (take secret_symbols encoded)
    let secret = decode_secret symbols
    first ← ok_or (decode_symbol (get_or encoded 32 0)) invalid
    second ← ok_or (decode_symbol (get_or encoded 33 0)) invalid
    guard (checksum_matches secret (first ∷ second ∷ [])) invalid
    ok secret

  unfoldable pub from_str : Bytes → Parsed Bytes
  from_str input = do
    normalized ← normalize [] input
    guard
        (length normalized == normalized_symbols && bytes_eq (take 4 normalized) (bytes_of "ESH1"))
        invalid
    decode_body (drop 4 normalized)
