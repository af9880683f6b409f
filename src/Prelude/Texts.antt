-- ===== src/Prelude/Texts.antt =====
-- The classes of characters that a UTF-8 text is tested for, as `char::is_whitespace` and
-- `char::is_control` have them.
use Prim.Native.Nat.{ℕ, zero, suc}
use mathlib.Core.Bool.{Bool, true, false, ◌&&◌, ◌||◌}
use mathlib.Core.List.{[], ◌∷◌}
use envshare.Prelude.ByteStrings.{Bytes}
use envshare.Prelude.Tests.{leb, ltb, ◌==◌, if◌then◌else◌}

-- U+0009 to U+000D and the space, in one byte.
abbrev is_ascii_whitespace : ℕ → Bool
is_ascii_whitespace c = (leb 9 c && leb c 13) || c == 32

-- U+0085 and U+00A0.
abbrev wide_space_2 : ℕ → ℕ → Bool
wide_space_2 a b = a == 0xc2 && (b == 0x85 || b == 0xa0)

-- U+1680, U+2000 to U+200A, U+2028, U+2029, U+202F, U+205F and U+3000.
abbrev wide_space_3 : ℕ → ℕ → ℕ → Bool
wide_space_3 a b c =
    (a == 0xe1 && b == 0x9a && c == 0x80)
    || (a == 0xe2 && b == 0x80 && (leb c 0x8a || c == 0xa8 || c == 0xa9 || c == 0xaf))
    || (a == 0xe2 && b == 0x81 && c == 0x9f)
    || (a == 0xe3 && b == 0x80 && c == 0x80)

-- The bytes of the white space that the text begins with: 0 if it begins with none.
unfoldable pub leading_space : Bytes → ℕ
leading_space [] = 0
leading_space (a ∷ []) = if is_ascii_whitespace a then 1 else 0
leading_space (a ∷ b ∷ []) = if is_ascii_whitespace a then 1 else if wide_space_2 a b then 2 else 0
leading_space (a ∷ b ∷ c ∷ _) =
    if is_ascii_whitespace a
    then 1
    else if wide_space_2 a b
    then 2
    else if wide_space_3 a b c
    then 3
    else 0

-- `chars().any(char::is_whitespace)`: a first byte of a character is none of its other bytes.
unfoldable pub has_whitespace : Bytes → Bool
unfolding leading_space
has_whitespace [] = false
has_whitespace (c ∷ text) = ltb 0 (leading_space (c ∷ text)) || has_whitespace text

-- U+0000 to U+001F and U+007F in one byte, U+0080 to U+009F in two.
unfoldable leads_control : Bytes → Bool
leads_control [] = false
leads_control (a ∷ []) = ltb a 32 || a == 127
leads_control (a ∷ b ∷ _) = ltb a 32 || a == 127 || (a == 0xc2 && leb b 0x9f)

unfoldable pub has_control : Bytes → Bool
unfolding leads_control
has_control [] = false
has_control (c ∷ text) = leads_control (c ∷ text) || has_control text

-- `starts_with`, and `strip_prefix` where it is so.
unfoldable pub starts_with : Bytes → Bytes → Bool
starts_with [] text = true
starts_with (p ∷ prefix) [] = false
starts_with (p ∷ prefix) (c ∷ text) = c == p && starts_with prefix text

-- The first byte of a character: how many bytes follow it, and the range of the next one.
pub record Lead : Type 0 where
  pub more : ℕ
  pub low : ℕ
  pub high : ℕ

abbrev lead : ℕ → ℕ → ℕ → Lead
lead more low high = record { more = more; low = low; high = high }

unfoldable lead_of : ℕ → Lead
lead_of c =
    if leb 0xc2 c && leb c 0xdf
    then lead 1 0x80 0xbf
    else if c == 0xe0
    then lead 2 0xa0 0xbf
    else if c == 0xed
    then lead 2 0x80 0x9f
    else if leb 0xe1 c && leb c 0xef
    then lead 2 0x80 0xbf
    else if c == 0xf0
    then lead 3 0x90 0xbf
    else if leb 0xf1 c && leb c 0xf3
    then lead 3 0x80 0xbf
    else if c == 0xf4
    then lead 3 0x80 0x8f
    else lead 0 0 0

-- The test of `str::from_utf8`, with the bytes that a character still wants.
unfoldable pub is_utf8_from : ℕ → ℕ → ℕ → Bytes → Bool
unfolding lead_of
is_utf8_from zero low high [] = true
is_utf8_from (suc more) low high [] = false
is_utf8_from (suc more) low high (c ∷ text) =
    leb low c && leb c high && is_utf8_from more 0x80 0xbf text
is_utf8_from zero low high (c ∷ text) =
    let first = if ltb c 128 then lead 0 0 0 else lead_of c in
    (ltb c 128 || ltb 0 first.more) && is_utf8_from first.more first.low first.high text

abbrev pub is_utf8 : Bytes → Bool
is_utf8 text = is_utf8_from 0 0 0 text
