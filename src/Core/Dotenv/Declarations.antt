-- ===== src/Core/Dotenv/Declarations.antt =====
-- crates/core/src/local/dotenv.rs: the table of declarations, against the last line that declares a key.
use envshare.Prelude.{
  ℕ, suc, ◌+◌, ◌≡◌, refl, ap, ◌∙◌, Bool, true, false, Option, none, some, List, [], ◌∷◌, Bytes,
  arith, Bool-cases, Option-cases, inl, inr, compare_bytes,
}
use envshare.Core.BTreeMap.{is_eq, get, insert, get-insert}
use envshare.Core.Dotenv.{declarations_from, declaration_key}

abbrev declares : Bytes → Option Bytes → Bool
declares key none = false
declares key (some found) = is_eq (compare_bytes key found)

abbrev later_or : Option ℕ → Bool → Option ℕ
later_or (some index) here = some (suc index)
later_or none true = some 0
later_or none false = none

-- The index of the last line that declares the key.
pub last_declared : Bytes → List Bytes → Option ℕ
last_declared key [] = none
last_declared key (line ∷ lines) =
    later_or (last_declared key lines) (declares key (declaration_key line))

abbrev pub offset : ℕ → Option ℕ → Option ℕ → Option ℕ
offset base (some index) before = some (base + index)
offset base none before = before

abbrev declared_at : ℕ → Option Bytes → List (Bytes × ℕ) → List (Bytes × ℕ)
declared_at index none declarations = declarations
declared_at index (some key) declarations = insert key index declarations

get-declared_at :
    (base : ℕ) (found : Option Bytes) (declarations : List (Bytes × ℕ)) (key : Bytes)
    → get key (declared_at base found declarations)
      ≡ offset base (later_or none (declares key found)) (get key declarations)
get-declared_at base none declarations key = refl
get-declared_at base (some found) declarations key =
    elim (Bool-cases (is_eq (compare_bytes key found))) [
      | inl t ↦ rw (get-insert key found base declarations, t) (ap some (omega arith))
      | inr f ↦ rw (get-insert key found base declarations, f) refl
    ]

offset_later :
    (base : ℕ) (later : Option ℕ) (here : Bool) (before before' : Option ℕ)
    → before ≡ offset base (later_or none here) before'
    → offset (base + 1) later before ≡ offset base (later_or later here) before'
offset_later base (some index) here before before' h = ap some (omega arith)
offset_later base none here before before' h = h

pub get-declarations_from :
    (base : ℕ) (lines : List Bytes) (declarations : List (Bytes × ℕ)) (key : Bytes)
    → get key (declarations_from base lines declarations)
      ≡ offset base (last_declared key lines) (get key declarations)
unfolding declarations_from last_declared
get-declarations_from base [] declarations key = refl
get-declarations_from base (line ∷ lines) declarations key =
    elim (Option-cases (declaration_key line)) [
      | inl n ↦
          rw (n, declarations_from, last_declared)
            (get-declarations_from (base + 1) lines declarations key
              ∙ offset_later base (last_declared key lines) false _ (get key declarations) refl)
      | inr (found, q) ↦
          rw (q, declarations_from, last_declared)
            (get-declarations_from (base + 1) lines (insert found base declarations) key
              ∙ offset_later base (last_declared key lines) (declares key (some found)) _
                  (get key declarations) (get-declared_at base (some found) declarations key))
    ]
