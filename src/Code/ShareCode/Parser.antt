-- ===== src/Code/ShareCode/Parser.antt =====
-- crates/code/src/lib.rs: lemmas on the steps of the parser.
use envshare.Prelude.{
  ℕ, ◌+◌, ◌≤◌, ◌≡◌, refl, inl, inr, Bool, true, ◌&&◌, not, some, List, [], ◌∷◌, ◌++◌, map,
  append-nil, append_assoc, arith, leb, ◌==◌, if◌then◌else◌, length, all, length-append, Bytes, ok,
  err, Bool-cases,
}
use envshare.Code.Alphabet.{decode_symbol, to_ascii_uppercase}
use envshare.Code.ShareCode.{normalize, decode_symbols, invalid, normalized_symbols}

-- The input without its separators.
unfoldable pub without_dashes : Bytes → Bytes
without_dashes [] = []
without_dashes (byte ∷ input) =
    let rest = without_dashes input in if byte == b'-' then rest else byte ∷ rest

abbrev pub is_ascii : ℕ → Bool
is_ascii b = not (leb 128 b)

-- The whole loop: it fails on a byte that is not ASCII, and on a 39th symbol.
normalize_lem :
    (done input : Bytes)
    → length done ≤ normalized_symbols
    → normalize done input ≡ (
        if all is_ascii (without_dashes input)
          && leb (length done + length (without_dashes input)) normalized_symbols
        then ok (done ++ map to_ascii_uppercase (without_dashes input))
        else err invalid)
unfolding normalize without_dashes
normalize_lem done [] h = ground (arith, append-nil done)
normalize_lem done (b ∷ input) h = elim (Bool-cases (b == b'-')) [
  | inl dash ↦ rw (dash, normalize, without_dashes) (normalize_lem done input h)
  | inr other ↦ ground (
    arith,
    other,
    normalize_lem (done ++ to_ascii_uppercase b ∷ []) input,
    length-append done (to_ascii_uppercase b ∷ []),
    append_assoc done (to_ascii_uppercase b ∷ []) (map to_ascii_uppercase (without_dashes input)),
  )
]

pub decode_symbols→eq :
    (xs : Bytes) (vs : List ℕ) → decode_symbols xs ≡ ok vs → map decode_symbol xs ≡ map some vs
unfolding decode_symbols
decode_symbols→eq [] [] h = refl
decode_symbols→eq [] (v ∷ vs) h = cc
decode_symbols→eq (x ∷ xs) [] h = ground arith
decode_symbols→eq (x ∷ xs) (v ∷ vs) h = ground (arith, decode_symbols→eq xs vs)

pub decode_symbols_of_eq :
    (xs : Bytes) (vs : List ℕ) → map decode_symbol xs ≡ map some vs → decode_symbols xs ≡ ok vs
unfolding decode_symbols
decode_symbols_of_eq [] [] h = refl
decode_symbols_of_eq (x ∷ xs) (v ∷ vs) h = ground (arith, decode_symbols_of_eq xs vs)
decode_symbols_of_eq (x ∷ xs) [] h = cc
decode_symbols_of_eq [] (v ∷ vs) h = cc

pub normalize-eq-ok :
    (input normalized : Bytes)
    → normalize [] input ≡ ok normalized
    → normalized ≡ map to_ascii_uppercase (without_dashes input)
normalize-eq-ok input normalized h = ground (arith, normalize_lem [] input)

pub normalize_of_ascii :
    (input : Bytes)
    → all is_ascii (without_dashes input) ≡ true
    → length (without_dashes input) ≤ normalized_symbols
    → normalize [] input ≡ ok (map to_ascii_uppercase (without_dashes input))
normalize_of_ascii input a n = ground (arith, normalize_lem [] input)
