-- ===== src/Code/Tests.antt =====
-- Runs and instances for crates/code, the golden vector of its unit tests among them. The digest is
-- a constant that begins as that of the zero secret does.
use envshare.Prelude.{
  ◌≡◌, refl, [], ◌∷◌, ◌++◌, ◌↔◌, arith, replicate, Bytes, bytes_of, bytes_eq, ok, err,
}
use envshare.Primitives.{IsSha256}
use envshare.Code.Alphabet.{
  encode_symbol, decode_symbol, decode_uppercase, to_ascii_uppercase, encode_secret, decode_secret,
}
use envshare.Code.Alphabet.RoundTrip.{decode_secret-encode_secret, encode_secret-decode_secret}
use envshare.Code.ShareCode.{
  invalid, checksum_symbols, checksum_matches, symbols, to_string, from_str, decode_body,
  decode_symbols, normalize, write_symbols,
}
use envshare.Code.ShareCode.Accepts.{IsSecret, Spells, from_str_accepts}
use envshare.Code.ShareCode.RoundTrip.{from_str-to_string}

abbrev zero_digest : Bytes → Bytes
zero_digest message = 190 ∷ replicate 31 0

zero_digest-IsSha256 : IsSha256 zero_digest
zero_digest-IsSha256 = record { size = λ m. refl; bytes = λ m. omega arith }

abbrev zero_secret : Bytes
zero_secret = replicate 20 0

abbrev other_secret : Bytes
other_secret = replicate 19 171 ++ 7 ∷ []

zero_secret-IsSecret : IsSecret zero_secret
zero_secret-IsSecret = record { size = refl; bytes = omega arith }

other_secret-IsSecret : IsSecret other_secret
other_secret-IsSecret = record { size = refl; bytes = omega arith }

golden :
    to_string zero_digest zero_secret ≡ bytes_of "esh1-0000-0000-0000-0000-0000-0000-0000-0000-QR"
unfolding to_string symbols checksum_symbols encode_secret encode_symbol write_symbols
golden = refl

aliases :
    from_str zero_digest (bytes_of "ESH1oooo-0000-0O00-0000-0000-0000-0000-0000-q-r")
    ≡ ok zero_secret
unfolding from_str normalize decode_body decode_symbols decode_symbol decode_uppercase
    to_ascii_uppercase decode_secret checksum_matches checksum_symbols bytes_eq
aliases = refl

rejects : from_str zero_digest (bytes_of "esh2-0000") ≡ err invalid
unfolding from_str normalize to_ascii_uppercase bytes_eq
rejects = refl

decode_secret-encode_secret_example : decode_secret (encode_secret other_secret) ≡ other_secret
decode_secret-encode_secret_example = decode_secret-encode_secret other_secret refl (omega arith)

encode_secret-decode_secret_example :
    encode_secret (decode_secret (replicate 31 9 ++ 30 ∷ [])) ≡ replicate 31 9 ++ 30 ∷ []
encode_secret-decode_secret_example =
    encode_secret-decode_secret (replicate 31 9 ++ 30 ∷ []) refl (omega arith)

from_str-to_string_example :
    from_str zero_digest (to_string zero_digest other_secret) ≡ ok other_secret
from_str-to_string_example =
    from_str-to_string zero_digest zero_digest-IsSha256 other_secret other_secret-IsSecret

from_str_accepts_example :
    (from_str zero_digest (to_string zero_digest zero_secret) ≡ ok zero_secret)
    ↔ (IsSecret zero_secret × Spells zero_digest (to_string zero_digest zero_secret) zero_secret)
from_str_accepts_example =
    from_str_accepts zero_digest (to_string zero_digest zero_secret) zero_secret
