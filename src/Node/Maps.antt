-- ===== src/Node/Maps.antt =====
-- `std::collections::HashMap` as an association list, with the operations that crates/node calls.
-- The order of the entries is not part of any theorem.
use envshare.Prelude.{
  ℕ, ◌≤◌, ◌<◌, ◌≡◌, Bool, true, false, not, ◌||◌, Option, none, some, List, [], ◌∷◌, if◌then◌else◌,
  length, All, Bool-cases, ◌⊎◌, inl, inr, arith,
}

pub record Entry (K V : Type 0) : Type 0 where
  pub key : K
  pub value : V

abbrev pub Map : Type 0 → Type 0 → Type 0
Map K V = List (Entry K V)

module _ {K V : Type 0} where
  unfoldable pub get : (K → K → Bool) → K → Map K V → Option V
  get same k [] = none
  get same k (e ∷ m) = if same k e.key then some e.value else get same k m

  unfoldable pub contains_key : (K → K → Bool) → K → Map K V → Bool
  contains_key same k [] = false
  contains_key same k (e ∷ m) = same k e.key || contains_key same k m

  unfoldable pub retain : (Entry K V → Bool) → Map K V → Map K V
  retain keep [] = []
  retain keep (e ∷ m) = let rest = retain keep m in if keep e then e ∷ rest else rest

  unfoldable pub remove : (K → K → Bool) → K → Map K V → Map K V
  unfolding retain
  remove same k m = retain (λ e. not (same k e.key)) m

  unfoldable pub insert : (K → K → Bool) → K → V → Map K V → Map K V
  unfolding remove
  insert same k v m = record { key = k; value = v } ∷ remove same k m

  pub length-retain : (keep : Entry K V → Bool) (m : Map K V) → length (retain keep m) ≤ length m
  unfolding retain
  length-retain keep [] = omega arith
  length-retain keep (e ∷ m) = ground (arith, length-retain keep m)

  pub All-retain :
      (P : Entry K V → Type 0) (keep : Entry K V → Bool) (m : Map K V)
      → All P m
      → All P (retain keep m)
  unfolding retain
  All-retain P keep [] h = tt
  All-retain P keep (e ∷ m) (p, h) = elim (Bool-cases (keep e)) [
    | inl t ↦ rw t (p, All-retain P keep m h)
    | inr f ↦ rw f (All-retain P keep m h)
  ]

  -- A key that is there gives up its entry.
  pub length-remove :
      (same : K → K → Bool) (k : K) (m : Map K V)
      → contains_key same k m ≡ true
      → length (remove same k m) < length m
  unfolding remove contains_key
  length-remove same k [] h = cc
  length-remove same k (e ∷ m) h =
      ground (arith, length-remove same k m, length-retain (λ e. not (same k e.key)) m)

  -- An insertion never makes a map larger than a bound, if it replaces an entry or there is room.
  pub length-insert :
      (same : K → K → Bool) (k : K) (v : V) (m : Map K V) (n : ℕ)
      → length m ≤ n
      → (contains_key same k m ≡ true) ⊎ (length m < n)
      → length (insert same k v m) ≤ n
  unfolding insert remove
  length-insert same k v m n h (inl c) = omega (arith, length-remove same k m c)
  length-insert same k v m n h (inr c) = omega (arith, length-retain (λ e. not (same k e.key)) m)
