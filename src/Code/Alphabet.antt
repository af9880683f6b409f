-- ===== src/Code/Alphabet.antt =====
-- crates/code/src/alphabet.rs: Crockford Base32 for the fixed-width secret.
pub mod Ranges
pub mod RoundTrip
use envshare.Prelude.{
  ℕ, zero, suc, ◌+◌, ◌-◌, ◌*◌, ◌/◌, ◌%◌, ◌^◌, ◌≡◌, refl, ◌||◌, ◌&&◌, Option, none, some, List, [],
  ◌∷◌, ◌++◌, leb, ◌==◌, if◌then◌else◌, get_or, Bytes, bytes_of,
}

abbrev pub alphabet : Bytes
alphabet = bytes_of "0123456789ABCDEFGHJKMNPQRSTVWXYZ"

-- The callers pass values below 32; an index out of range panics in the source, and gives 0 here.
unfoldable pub encode_symbol : ℕ → ℕ
encode_symbol value = get_or alphabet value 0

unfoldable pub to_ascii_uppercase : ℕ → ℕ
to_ascii_uppercase b = if leb b'a' b && leb b b'z' then b - 32 else b

-- The arms of the match, in the source's order.
unfoldable pub decode_uppercase : ℕ → Option ℕ
decode_uppercase c =
    if c == b'0' || c == b'O'
    then some 0
    else if c == b'1' || c == b'I' || c == b'L'
    then some 1
    else if leb b'2' c && leb c b'9'
    then some (c - b'0')
    else if leb b'A' c && leb c b'H'
    then some (c - b'A' + 10)
    else if leb b'J' c && leb c b'K'
    then some (c - b'J' + 18)
    else if leb b'M' c && leb c b'N'
    then some (c - b'M' + 20)
    else if leb b'P' c && leb c b'T'
    then some (c - b'P' + 22)
    else if leb b'V' c && leb c b'Z'
    then some (c - b'V' + 27)
    else none

unfoldable pub decode_symbol : ℕ → Option ℕ
decode_symbol symbol = decode_uppercase (to_ascii_uppercase symbol)

abbrev low_byte : ℕ → ℕ
low_byte value = value % 256

-- `(accumulator << bits) | value` in a u16, for a value below 2 ^ bits.
abbrev push_bits : ℕ → ℕ → ℕ → ℕ
push_bits accumulator bits value = accumulator * 2 ^ bits % 2 ^ 16 + value

-- `while available_bits >= 5`: the symbols that it writes, and the bits that it leaves. The fuel is
-- `available_bits`, which falls in every round.
drain : ℕ → ℕ → ℕ → List ℕ × ℕ
drain zero accumulator available_bits = ([], available_bits)
drain (suc fuel) accumulator available_bits =
    let left = available_bits - 5 in
    let rest = drain fuel accumulator left in
    if leb 5 available_bits
    then ((low_byte (accumulator / 2 ^ left) % 32) ∷ rest.0, rest.1)
    else ([], available_bits)

-- `for byte in secret`; the array is filled from left to right, so it is the list of the writes.
encode_loop : Bytes → ℕ → ℕ → List ℕ
encode_loop [] accumulator available_bits = []
encode_loop (byte ∷ secret) accumulator available_bits =
    let accumulator' = push_bits accumulator 8 byte in
    let drained = drain (available_bits + 8) accumulator' (available_bits + 8) in
    drained.0 ++ encode_loop secret accumulator' drained.1

unfoldable pub encode_secret : Bytes → List ℕ
unfolding encode_loop drain
encode_secret secret = encode_loop secret 0 0

-- `for symbol in symbols`.
decode_loop : List ℕ → ℕ → ℕ → Bytes
decode_loop [] accumulator available_bits = []
decode_loop (symbol ∷ symbols) accumulator available_bits =
    let accumulator' = push_bits accumulator 5 symbol in
    let available = available_bits + 5 in
    let full =
      low_byte (accumulator' / 2 ^ (available - 8))
      ∷ decode_loop symbols accumulator' (available - 8) in
    let partial = decode_loop symbols accumulator' available in
    if leb 8 available then full else partial

unfoldable pub decode_secret : List ℕ → Bytes
unfolding decode_loop
decode_secret symbols = decode_loop symbols 0 0
