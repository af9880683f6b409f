-- ===== src/Node/Wire/Varint.antt =====
-- crates/node/src/rendezvous/codec.rs: the length of a frame.
use envshare.Prelude.{
  ℕ, zero, suc, ◌+◌, ◌*◌, ◌/◌, ◌%◌, ◌^◌, ◌<◌, ◌≡◌, ap, ◌∷◌, ◌++◌, Bytes, arith, ok,
}
use envshare.Node.Wire.{read_length, encode_groups}
use native.Mathlib.Nat.{div-add-mod}
use native.Mathlib.Numerals.{towards_suc}

shift_seven : (s : ℕ) → 2 ^ (s + 7) ≡ 128 * 2 ^ s
shift_seven s = simp towards_suc (omega arith)

-- The lowest group of a value and the groups above it, all shifted.
split_value :
    (value shift : ℕ) → value * 2 ^ shift ≡ value % 128 * 2 ^ shift + value / 128 * 2 ^ (shift + 7)
split_value value shift = omega (
  arith,
  ap (λ (t : ℕ). t * 2 ^ shift) (div-add-mod value 128),
  ap (λ (t : ℕ). value / 128 * t) (shift_seven shift),
)

-- The last group, which the 64 bits have room for.
last_group :
    (rounds shift size value : ℕ) (rest : Bytes)
    → value < 128
    → size + value * 2 ^ shift < 2 ^ 64
    → read_length (suc rounds) shift size (value ∷ rest) ≡ ok (size + value * 2 ^ shift, rest)
unfolding read_length
last_group rounds shift size value rest small fits =
    ground (arith, λ (e : shift ≡ 63). ap (λ (n : ℕ). value * 2 ^ n) e)

inner_group :
    (rounds shift size group : ℕ) (rest : Bytes)
    → group < 128
    → shift < 63
    → size + group * 2 ^ shift < 2 ^ 64
    → read_length (suc rounds) shift size ((group + 128) ∷ rest)
      ≡ read_length rounds (shift + 7) (size + group * 2 ^ shift) rest
unfolding read_length
inner_group rounds shift size group rest small below fits = ground arith

-- `encode_varint` writes what the loop of `read_frame` reads, from any shift on.
pub read_length-encode_groups :
    (k shift size value : ℕ) (rest : Bytes)
    → shift + 7 * k ≡ 63
    → value < 128 ^ suc k
    → size + value * 2 ^ shift < 2 ^ 64
    → read_length (suc k) shift size (encode_groups (suc k) value ++ rest)
      ≡ ok (size + value * 2 ^ shift, rest)
unfolding encode_groups
read_length-encode_groups zero shift size value rest e small fits =
    ground (arith, last_group zero shift size value rest)
read_length-encode_groups (suc k) shift size value rest e small fits = ground (
  arith,
  last_group (suc k) shift size value rest,
  split_value value shift,
  inner_group (suc k) shift size (value % 128) (encode_groups (suc k) (value / 128) ++ rest),
  read_length-encode_groups k (shift + 7) (size + value % 128 * 2 ^ shift) (value / 128) rest
      (omega arith) (omega arith),
)
