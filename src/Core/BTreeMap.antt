-- ===== src/Core/BTreeMap.antt =====
-- `std::collections::BTreeMap` with texts for keys, as the list of its entries in the order of the
-- keys, and the operations that crates/core calls.
use Prim.Native.Nat.{Ordering}
use envshare.Prelude.{
  ◌≡◌, refl, sym, ap₂, subst, ◌∙◌, ◌⊎◌, inl, inr, Bool, true, false, Option, none, some, List, [],
  ◌∷◌, if◌then◌else◌, All, Bytes, compare_bytes, compare_bytes-eq, compare_bytes_refl, some-inj,
  compare_bytes_swap, compare_bytes_flip, compare_bytes_trans, arith,
}

cases : (o : Ordering) → (o ≡ Ordering.lt) ⊎ ((o ≡ Ordering.eq) ⊎ (o ≡ Ordering.gt))
cases Ordering.lt = inl refl
cases Ordering.eq = inr (inl refl)
cases Ordering.gt = inr (inr refl)

pub order :
    (a b : Bytes)
    → (compare_bytes a b ≡ Ordering.lt)
      ⊎ ((compare_bytes a b ≡ Ordering.eq) ⊎ (compare_bytes a b ≡ Ordering.gt))
order a b = cases (compare_bytes a b)

abbrev pub is_eq : Ordering → Bool
is_eq Ordering.eq = true
is_eq Ordering.lt = false
is_eq Ordering.gt = false

abbrev is_gt : Ordering → Bool
is_gt Ordering.gt = true
is_gt Ordering.lt = false
is_gt Ordering.eq = false

module _ {V : Type 0} where
  unfoldable pub get : Bytes → List (Bytes × V) → Option V
  get k [] = none
  get k ((j, v) ∷ m) =
      let rest = get k m in
      elim (compare_bytes k j) [ Ordering.lt ↦ none | Ordering.eq ↦ some v | Ordering.gt ↦ rest ]

  unfoldable pub contains_key : Bytes → List (Bytes × V) → Bool
  contains_key k m = elim (get k m) [ none ↦ false | some _ ↦ true ]

  unfoldable pub insert : Bytes → V → List (Bytes × V) → List (Bytes × V)
  insert k v [] = (k, v) ∷ []
  insert k v ((j, w) ∷ m) =
      let later = (j, w) ∷ insert k v m in
      elim (compare_bytes k j) [
        | Ordering.lt ↦ (k, v) ∷ (j, w) ∷ m
        | Ordering.eq ↦ (k, v) ∷ m
        | Ordering.gt ↦ later
      ]

  unfoldable pub IsAbove : Bytes → Bytes × V → Type 0
  IsAbove k e = compare_bytes k e.0 ≡ Ordering.lt

  -- The keys ascend.
  unfoldable pub IsSorted : List (Bytes × V) → Type 0
  IsSorted [] = Unit {0}
  IsSorted (e ∷ m) = All (IsAbove e.0) m × IsSorted m

  pub All-IsAbove :
      (i k : Bytes) (m : List (Bytes × V))
      → compare_bytes i k ≡ Ordering.lt
      → All (IsAbove k) m
      → All (IsAbove i) m
  unfolding IsAbove
  All-IsAbove i k [] lt h = tt
  All-IsAbove i k (e ∷ m) lt (p, h) = (compare_bytes_trans i k e.0 lt p, All-IsAbove i k m lt h)

  -- Nothing is found below the keys.
  pub get_below : (k : Bytes) (m : List (Bytes × V)) → All (IsAbove k) m → get k m ≡ none
  unfolding get IsAbove
  get_below k [] h = refl
  get_below k ((j, v) ∷ m) (p, h) = rw (p, get) refl

  insert-IsAbove :
      (i k : Bytes) (v : V) (m : List (Bytes × V))
      → compare_bytes i k ≡ Ordering.lt
      → All (IsAbove i) m
      → All (IsAbove i) (insert k v m)
  unfolding insert IsAbove
  insert-IsAbove i k v [] lt h = (lt, tt)
  insert-IsAbove i k v ((j, w) ∷ m) lt (p, h) = elim (order k j) [
    | inl l ↦ rw (l, insert) (lt, (p, h))
    | inr (inl e) ↦ rw (e, insert) (lt, h)
    | inr (inr g) ↦ rw (g, insert) (p, insert-IsAbove i k v m lt h)
  ]

  pub insert-IsSorted :
      (k : Bytes) (v : V) (m : List (Bytes × V)) → IsSorted m → IsSorted (insert k v m)
  unfolding insert IsSorted IsAbove
  insert-IsSorted k v [] s = (tt, tt)
  insert-IsSorted k v ((j, w) ∷ m) (above, s) = elim (order k j) [
    | inl l ↦ rw (l, insert) ((l, All-IsAbove k j m l above), (above, s))
    | inr (inl e) ↦
        rw (e, insert) (subst (λ i. All (IsAbove i) m) (sym (compare_bytes-eq k j e)) above, s)
    | inr (inr g) ↦
        rw (g, insert)
          (insert-IsAbove j k v m (compare_bytes_swap k j g) above, insert-IsSorted k v m s)
  ]

  pub get-insert :
      (j k : Bytes) (v : V) (m : List (Bytes × V))
      → get j (insert k v m) ≡ (if is_eq (compare_bytes j k) then some v else get j m)
  unfolding get insert
  get-insert j k v [] = ground arith
  get-insert j k v ((i, w) ∷ m) = ground (
    arith,
    get-insert j k v m,
    compare_bytes-eq k i,
    compare_bytes-eq j k,
    compare_bytes-eq j i,
    compare_bytes_swap k i,
    compare_bytes_flip k i,
    compare_bytes_trans j k i,
    compare_bytes_refl i,
    compare_bytes_trans j i k,
  )

  get_head : (k : Bytes) (v : V) (m : List (Bytes × V)) → get k ((k, v) ∷ m) ≡ some v
  unfolding get
  get_head k v m = rw (compare_bytes_refl k, get) refl

  found_at : (i j : Bytes) (w : V) (n : List (Bytes × V)) → i ≡ j → get i ((j, w) ∷ n) ≡ some w
  found_at i j w n e = subst (λ k. get k ((j, w) ∷ n) ≡ some w) (sym e) (get_head j w n)

  get_tail :
      (i k : Bytes) (v : V) (m : List (Bytes × V))
      → All (IsAbove i) m
      → get k m ≡ (if is_gt (compare_bytes k i) then get k ((i, v) ∷ m) else none)
  unfolding get IsAbove
  get_tail i k v m above = elim (order k i) [
    | inl l ↦ rw (l, is_gt) (get_below k m (All-IsAbove k i m l above))
    | inr (inl e) ↦
        rw (e, is_gt)
          (get_below k m (subst (λ x. All (IsAbove x) m) (sym (compare_bytes-eq k i e)) above))
    | inr (inr g) ↦ rw (g, get) refl
  ]

  tails :
      (i : Bytes) (v w : V) (m n : List (Bytes × V)) (j : Bytes)
      → i ≡ j
      → All (IsAbove i) m
      → All (IsAbove j) n
      → ((k : Bytes) → get k ((i, v) ∷ m) ≡ get k ((j, w) ∷ n))
      → (k : Bytes) → get k m ≡ get k n
  tails i v w m n j e am an h k = cc (get_tail i k v m am, get_tail j k w n an, h k, e)

  -- A map is given by what is found in it.
  pub get-inj :
      (m n : List (Bytes × V)) → IsSorted m → IsSorted n → ((k : Bytes) → get k m ≡ get k n) → m ≡ n
  unfolding get IsSorted IsAbove
  get-inj [] [] sm sn h = refl
  get-inj [] ((j, w) ∷ n) sm sn h = cc (get_head j w n, h j)
  get-inj ((i, v) ∷ m) [] sm sn h = cc (get_head i v m, h i)
  get-inj ((i, v) ∷ m) ((j, w) ∷ n) (am, sm) (an, sn) h = elim (order i j) [
    | inl l ↦ cc (get_head i v m, h i, get_below i ((j, w) ∷ n) (l, All-IsAbove i j n l an))
    | inr (inl e) ↦
        let k_eq = compare_bytes-eq i j e in
        let v_eq : v ≡ w = some-inj (sym (get_head i v m) ∙ h i ∙ found_at i j w n k_eq) in
        ap₂ ◌∷◌ (ap₂ (λ k x. (k, x)) k_eq v_eq) (get-inj m n sm sn (tails i v w m n j k_eq am an h))
    | inr (inr g) ↦
        let l = compare_bytes_swap i j g in
        cc (get_head j w n, h j, get_below j ((i, v) ∷ m) (l, All-IsAbove j i m l am))
  ]
