-- ===== src/Prelude/Compare.antt =====
-- The order of byte strings, as `Ord` has it for texts and identities.
use Prim.Native.Nat.{compare, Ordering}
use mathlib.Core.Path.{◌≡◌, refl}
use mathlib.Core.Logic.{◌≢◌}
use mathlib.Core.List.{[], ◌∷◌}
use native.Mathlib.Omega.{arith}
use envshare.Prelude.ByteStrings.{Bytes}

-- `Ord` for the bytes of identities and texts.
unfoldable pub compare_bytes : Bytes → Bytes → Ordering
compare_bytes [] [] = Ordering.eq
compare_bytes [] (y ∷ ys) = Ordering.lt
compare_bytes (x ∷ xs) [] = Ordering.gt
compare_bytes (x ∷ xs) (y ∷ ys) =
    let rest = compare_bytes xs ys in
    elim (compare x y) [
      | Ordering.lt ↦ Ordering.lt
      | Ordering.gt ↦ Ordering.gt
      | Ordering.eq ↦ rest
    ]

pub compare_bytes-eq : (a b : Bytes) → compare_bytes a b ≡ Ordering.eq → a ≡ b
unfolding compare_bytes
compare_bytes-eq [] [] h = refl
compare_bytes-eq [] (y ∷ ys) h = cc
compare_bytes-eq (x ∷ xs) [] h = cc
compare_bytes-eq (x ∷ xs) (y ∷ ys) h = ground (arith, h, compare_bytes-eq xs ys)

pub compare_bytes_swap :
    (a b : Bytes) → compare_bytes a b ≡ Ordering.gt → compare_bytes b a ≡ Ordering.lt
unfolding compare_bytes
compare_bytes_swap [] [] h = cc
compare_bytes_swap [] (y ∷ ys) h = cc
compare_bytes_swap (x ∷ xs) [] h = refl
compare_bytes_swap (x ∷ xs) (y ∷ ys) h = ground (arith, h, compare_bytes_swap xs ys)

pub compare_bytes_refl : (a : Bytes) → compare_bytes a a ≡ Ordering.eq
unfolding compare_bytes
compare_bytes_refl [] = refl
compare_bytes_refl (x ∷ xs) = ground (arith, compare_bytes_refl xs)

pub compare_bytes_trans :
    (a b c : Bytes)
    → compare_bytes a b ≡ Ordering.lt
    → compare_bytes b c ≡ Ordering.lt
    → compare_bytes a c ≡ Ordering.lt
unfolding compare_bytes
compare_bytes_trans [] [] c h k = cc
compare_bytes_trans [] (y ∷ ys) [] h k = cc
compare_bytes_trans [] (y ∷ ys) (z ∷ zs) h k = refl
compare_bytes_trans (x ∷ xs) [] c h k = cc
compare_bytes_trans (x ∷ xs) (y ∷ ys) [] h k = cc
compare_bytes_trans (x ∷ xs) (y ∷ ys) (z ∷ zs) h k =
    ground (arith, h, k, compare_bytes_trans xs ys zs)

pub compare_bytes_antisym :
    (a b : Bytes) → compare_bytes a b ≢ Ordering.gt → compare_bytes b a ≢ Ordering.gt → a ≡ b
unfolding compare_bytes
compare_bytes_antisym [] [] h k = refl
compare_bytes_antisym [] (y ∷ ys) h k = absurd (k refl)
compare_bytes_antisym (x ∷ xs) [] h k = absurd (h refl)
compare_bytes_antisym (x ∷ xs) (y ∷ ys) h k = ground (arith, compare_bytes_antisym xs ys)

pub compare_bytes_flip :
    (a b : Bytes) → compare_bytes a b ≡ Ordering.lt → compare_bytes b a ≡ Ordering.gt
unfolding compare_bytes
compare_bytes_flip [] [] h = cc
compare_bytes_flip [] (y ∷ ys) h = refl
compare_bytes_flip (x ∷ xs) [] h = cc
compare_bytes_flip (x ∷ xs) (y ∷ ys) h = ground (arith, h, compare_bytes_flip xs ys)
