-- ===== src/Code/Alphabet/Ranges.antt =====
-- crates/code/src/alphabet.rs: how many symbols and bytes the loops write, and in which range.
use envshare.Prelude.{
  ℕ, zero, suc, ◌+◌, ◌-◌, ◌*◌, ◌/◌, ◌%◌, ◌<◌, ◌≤◌, ◌≡◌, refl, ap, List, [], ◌∷◌, Bool, true, false,
  ◌&&◌, not, some, arith, leb, All, All-append, length, length-append, Bytes, IsByte, ◌==◌,
}
use envshare.Code.Alphabet.{
  push_bits, drain, encode_loop, decode_loop, encode_secret, decode_secret, encode_symbol,
  decode_symbol, to_ascii_uppercase, decode_uppercase,
}

abbrev pub IsSymbol : ℕ → Type 0
IsSymbol v = v < 32

drain_lem :
    (fuel acc bits : ℕ)
    → bits ≤ fuel
    → (length (drain fuel acc bits).0 ≡ bits / 5)
      × ((drain fuel acc bits).1 ≡ bits % 5)
      × All IsSymbol (drain fuel acc bits).0
unfolding drain
drain_lem zero acc bits h = (omega arith, omega arith, tt)
drain_lem (suc fuel) acc bits h = ground (arith, drain_lem fuel acc (bits - 5))

encode_loop_lem :
    (secret : Bytes) (acc bits : ℕ)
    → bits < 5
    → (length (encode_loop secret acc bits) ≡ (8 * length secret + bits) / 5)
      × All IsSymbol (encode_loop secret acc bits)
unfolding encode_loop
encode_loop_lem [] acc bits h = (omega arith, tt)
encode_loop_lem (b ∷ secret) acc bits h =
    let acc' = push_bits acc 8 b in
    let d = drain_lem (bits + 8) acc' (bits + 8) (omega arith) in
    let ih = encode_loop_lem secret acc' (drain (bits + 8) acc' (bits + 8)).1 (omega arith) in
    (
      omega (
        arith,
        length-append (drain (bits + 8) acc' (bits + 8)).0
            (encode_loop secret acc' (drain (bits + 8) acc' (bits + 8)).1),
      ),
      All-append IsSymbol _ _ d.2 ih.1,
    )

decode_loop_lem :
    (symbols : List ℕ) (acc bits : ℕ)
    → bits < 8
    → (length (decode_loop symbols acc bits) ≡ (5 * length symbols + bits) / 8)
      × All IsByte (decode_loop symbols acc bits)
unfolding decode_loop
decode_loop_lem [] acc bits h = (omega arith, tt)
decode_loop_lem (v ∷ symbols) acc bits h = ground (
  arith,
  decode_loop_lem symbols (acc * 32 % 65536 + v) (bits + 5),
  decode_loop_lem symbols (acc * 32 % 65536 + v) (bits - 3),
)

pub encode_secret_range :
    (secret : Bytes)
    → length secret ≡ 20
    → (length (encode_secret secret) ≡ 32) × All IsSymbol (encode_secret secret)
unfolding encode_secret
encode_secret_range secret h = (
  omega (arith, (encode_loop_lem secret 0 0 (omega arith)).0),
  (encode_loop_lem secret 0 0 (omega arith)).1,
)

pub decode_secret_range :
    (symbols : List ℕ)
    → length symbols ≡ 32
    → (length (decode_secret symbols) ≡ 20) × All IsByte (decode_secret symbols)
unfolding decode_secret
decode_secret_range symbols h = (
  omega (arith, (decode_loop_lem symbols 0 0 (omega arith)).0),
  (decode_loop_lem symbols 0 0 (omega arith)).1,
)

holds_below : (ℕ → Bool) → ℕ → Bool
holds_below test zero = true
holds_below test (suc bound) = holds_below test bound && test bound

holds_below-eq-true :
    (test : ℕ → Bool) (bound v : ℕ) → v < bound → holds_below test bound ≡ true → test v ≡ true
unfolding holds_below
holds_below-eq-true test (suc bound) v below all_hold =
    ground (arith, holds_below-eq-true test bound v)
holds_below-eq-true test zero v below all_hold = absurd (omega arith)

-- A displayed letter is ASCII, no separator, in upper case, and decodes to its value.
letter_test : ℕ → Bool
letter_test v =
    let c = encode_symbol v in
    not (c == b'-')
    && not (leb 128 c)
    && (to_ascii_uppercase c == c)
    && (elim (decode_symbol c) [ some w ↦ w == v | _ ↦ leb 1 0 ])

letter_table : holds_below letter_test 32 ≡ true
unfolding holds_below letter_test decode_uppercase encode_symbol decode_symbol to_ascii_uppercase
letter_table = refl

pub record IsLetter (v : ℕ) : Type 0 where
  pub no_dash : (encode_symbol v == b'-') ≡ false
  pub ascii : leb 128 (encode_symbol v) ≡ false
  pub upper : to_ascii_uppercase (encode_symbol v) ≡ encode_symbol v
  pub decodes : decode_symbol (encode_symbol v) ≡ some v

decode_uppercase-IsLetter : (v : ℕ) → letter_test v ≡ true → IsLetter v
unfolding letter_test
decode_uppercase-IsLetter v h = ground arith

pub encode_symbol-IsLetter : (v : ℕ) → v < 32 → IsLetter v
encode_symbol-IsLetter v h =
    decode_uppercase-IsLetter v (holds_below-eq-true letter_test 32 v h letter_table)

decode_uppercase-lt : (c v : ℕ) → decode_uppercase c ≡ some v → v < 32
unfolding decode_uppercase
decode_uppercase-lt c v h = ground arith

pub decode_symbol-IsSymbol : (c v : ℕ) → decode_symbol c ≡ some v → IsSymbol v
unfolding decode_symbol
decode_symbol-IsSymbol c v h = decode_uppercase-lt (to_ascii_uppercase c) v h

uppercase_twice : (c : ℕ) → to_ascii_uppercase (to_ascii_uppercase c) ≡ to_ascii_uppercase c
unfolding to_ascii_uppercase
uppercase_twice c = ground arith

-- A letter and its upper case have one value.
pub decode_symbol-to_ascii_uppercase :
    (c : ℕ) → decode_symbol (to_ascii_uppercase c) ≡ decode_symbol c
unfolding decode_symbol
decode_symbol-to_ascii_uppercase c = ap decode_uppercase (uppercase_twice c)

decode_uppercase-ascii : (c v : ℕ) → decode_uppercase c ≡ some v → c < 128
unfolding decode_uppercase
decode_uppercase-ascii c v h = ground arith

pub decode_symbol-ascii : (c v : ℕ) → decode_symbol c ≡ some v → leb 128 c ≡ false
unfolding decode_symbol to_ascii_uppercase
decode_symbol-ascii c v h = ground (arith, decode_uppercase-ascii (to_ascii_uppercase c) v)
