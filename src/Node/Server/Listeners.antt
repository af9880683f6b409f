-- ===== src/Node/Server/Listeners.antt =====
-- crates/node/src/relay.rs: the set of the listeners that are bound, as a list.
use envshare.Prelude.{
  ℕ, suc, ◌≤◌, ◌≡◌, refl, ◌∙◌, inl, inr, Bool, true, false, not, ◌&&◌, ◌||◌, List, [], ◌∷◌, ◌==◌,
  ==_iff, ==_refl, if◌then◌else◌, length, All, arith, Bool-cases, subst, sym,
}
use envshare.Node.Server.{insert_listener, remove_listener}

unfoldable pub contains : ℕ → List ℕ → Bool
contains listener [] = false
contains listener (l ∷ listeners) = (l == listener) || contains listener listeners

-- No listener is in the list twice.
unfoldable pub IsDistinct : List ℕ → Type 0
IsDistinct [] = Unit {0}
IsDistinct (l ∷ listeners) = (contains l listeners ≡ false) × IsDistinct listeners

pub contains-insert_listener :
    (l listener : ℕ) (listeners : List ℕ)
    → contains l (insert_listener listener listeners) ≡ ((listener == l) || contains l listeners)
unfolding insert_listener contains
contains-insert_listener l listener [] = refl
contains-insert_listener l listener (m ∷ listeners) =
    ground (arith, contains-insert_listener l listener listeners)

pub contains-remove_listener :
    (l listener : ℕ) (listeners : List ℕ)
    → contains l (remove_listener listener listeners)
      ≡ (not (listener == l) && contains l listeners)
unfolding remove_listener contains
contains-remove_listener l listener [] = ground arith
contains-remove_listener l listener (m ∷ listeners) =
    ground (arith, contains-remove_listener l listener listeners)

pub insert_listener-IsDistinct :
    (listener : ℕ) (listeners : List ℕ)
    → IsDistinct listeners
    → IsDistinct (insert_listener listener listeners)
unfolding insert_listener IsDistinct contains
insert_listener-IsDistinct listener [] h = (refl, tt)
insert_listener-IsDistinct listener (m ∷ listeners) (new, h) = elim (Bool-cases (m == listener)) [
  | inl t ↦ rw t (new, h)
  | inr f ↦ rw f (
    ground (arith, f, new, contains-insert_listener m listener listeners),
    insert_listener-IsDistinct listener listeners h,
  )
]

pub remove_listener-IsDistinct :
    (listener : ℕ) (listeners : List ℕ)
    → IsDistinct listeners
    → IsDistinct (remove_listener listener listeners)
unfolding remove_listener IsDistinct
remove_listener-IsDistinct listener [] h = tt
remove_listener-IsDistinct listener (m ∷ listeners) (new, h) =
    let rest = remove_listener-IsDistinct listener listeners h in
    elim (Bool-cases (m == listener)) [
      | inl t ↦ rw t rest
      | inr f ↦ rw f (ground (arith, new, contains-remove_listener m listener listeners), rest)
    ]

-- The list without the first occurrence of the listener.
erase : ℕ → List ℕ → List ℕ
erase listener [] = []
erase listener (l ∷ listeners) =
    let rest = l ∷ erase listener listeners in if l == listener then listeners else rest

length-erase :
    (listener : ℕ) (listeners : List ℕ)
    → contains listener listeners ≡ true
    → suc (length (erase listener listeners)) ≡ length listeners
unfolding erase contains
length-erase listener [] h = absurd (ground (arith, h))
length-erase listener (l ∷ listeners) h = elim (Bool-cases (l == listener)) [
  | inl t ↦ rw t refl
  | inr f ↦
      let inner : contains listener listeners ≡ true = ground (arith, f, h) in
      rw f (omega (arith, length-erase listener listeners inner))
]

contains-erase :
    (l listener : ℕ) (listeners : List ℕ)
    → (listener == l) ≡ false
    → contains l (erase listener listeners) ≡ contains l listeners
unfolding erase contains
contains-erase l listener [] h = refl
contains-erase l listener (m ∷ listeners) h =
    ground (arith, h, contains-erase l listener listeners h)

-- All of the first are in the second.
abbrev pub AllIn : List ℕ → List ℕ → Type 0
AllIn listeners others = (l : ℕ) → contains l listeners ≡ true → contains l others ≡ true

-- The head of a list without duplicates is none of the rest.
head_differs :
    (x l : ℕ) (xs : List ℕ) → contains x xs ≡ false → contains l xs ≡ true → (x == l) ≡ false
head_differs x l xs new h = elim (Bool-cases (x == l)) [
  | inl t ↦ absurd (cc (sym new ∙ subst (λ y. contains y xs ≡ true) (sym ((==_iff x l).0 t)) h))
  | inr f ↦ f
]

length-AllIn : (xs ys : List ℕ) → IsDistinct xs → AllIn xs ys → length xs ≤ length ys
unfolding IsDistinct contains
length-AllIn [] ys d h = omega arith
length-AllIn (x ∷ xs) ys (new, d) h =
    let head : contains x ys ≡ true = h x (ground (arith, ==_refl x)) in
    let tail : AllIn xs (erase x ys) =
      λ l k. contains-erase l x ys (head_differs x l xs new k) ∙ h l (ground (arith, k)) in
    omega (arith, length-erase x ys head, length-AllIn xs (erase x ys) d tail)

-- As many distinct elements of a list as it has are all of its elements.
pub contains-full :
    (xs ys : List ℕ) (l : ℕ)
    → IsDistinct xs
    → AllIn xs ys
    → length ys ≤ length xs
    → contains l ys ≡ true
    → contains l xs ≡ true
unfolding IsDistinct contains
contains-full xs ys l d h le k = elim (Bool-cases (contains l xs)) [
  | inl t ↦ t
  | inr f ↦
      let within : AllIn (l ∷ xs) ys = λ m e. elim (Bool-cases (l == m)) [
        | inl same ↦ subst (λ y. contains y ys ≡ true) ((==_iff l m).0 same) k
        | inr other ↦ h m (ground (arith, other, e))
      ] in
      let lt : suc (length xs) ≤ length ys = length-AllIn (l ∷ xs) ys (f, d) within in
      absurd (omega (arith, lt, le))
]

pub All-contains :
    (P : ℕ → Type 0) (ys : List ℕ) → ((l : ℕ) → contains l ys ≡ true → P l) → All P ys
unfolding contains
All-contains P [] h = tt
All-contains P (y ∷ ys) h =
    (h y (ground (arith, ==_refl y)), All-contains P ys (λ l k. h l (ground (arith, k))))
