-- ===== src/Core/Dotenv/Lines.antt =====
-- crates/core/src/local/dotenv.rs: the lines of a document.
use envshare.Prelude.{
  ℕ, zero, suc, ◌<◌, ◌≡◌, refl, ap, ◌∙◌, inl, inr, not, ◌&&◌, Option, none, some, List, [], ◌∷◌,
  append-nil, ◌≢◌, ◌==◌, length, is_empty, Bytes, arith, Bool-cases,
}
use envshare.Core.Dotenv.{split_inclusive, ends_with_newline, lines_of, set, concat}

-- The first line is one character longer.
abbrev extend : ℕ → List Bytes → List Bytes
extend c [] = (c ∷ []) ∷ []
extend c (line ∷ lines) = (c ∷ line) ∷ lines

concat-extend : (c : ℕ) (lines : List Bytes) → concat (extend c lines) ≡ c ∷ concat lines
concat-extend c [] = refl
concat-extend c (line ∷ lines) = refl

concat-split_inclusive : (text : Bytes) → concat (split_inclusive text) ≡ text
unfolding split_inclusive
concat-split_inclusive [] = refl
concat-split_inclusive (c ∷ text) = elim (Bool-cases (c == b'\n')) [
  | inl t ↦ rw (t, split_inclusive) (ap (λ rest. c ∷ rest) (concat-split_inclusive text))
  | inr f ↦
      rw (f, split_inclusive)
        (concat-extend c (split_inclusive text)
          ∙ ap (λ rest. c ∷ rest) (concat-split_inclusive text))
]

-- The lines of a document make up the document.
pub concat-lines_of : (text : Bytes) → concat (lines_of text) ≡ text
unfolding lines_of
concat-lines_of text =
    elim (Bool-cases
      (not (is_empty text) && not (ends_with_newline text) && is_empty (split_inclusive text))) [
        | inl t ↦ rw (t, lines_of) (append-nil text)
        | inr f ↦ rw (f, lines_of) (concat-split_inclusive text)
      ]

abbrev pub get_elem? : List Bytes → ℕ → Option Bytes
get_elem? [] index = none
get_elem? (line ∷ lines) zero = some line
get_elem? (line ∷ lines) (suc index) = get_elem? lines index

pub length-set :
    (lines : List Bytes) (index : ℕ) (line : Bytes) → length (set lines index line) ≡ length lines
length-set [] index line = refl
length-set (l ∷ lines) zero line = refl
length-set (l ∷ lines) (suc index) line = ap suc (length-set lines index line)

pub get_elem?-set_self :
    (lines : List Bytes) (index : ℕ) (line : Bytes)
    → index < length lines
    → get_elem? (set lines index line) index ≡ some line
get_elem?-set_self [] index line h = absurd (omega arith)
get_elem?-set_self (l ∷ lines) zero line h = refl
get_elem?-set_self (l ∷ lines) (suc index) line h =
    get_elem?-set_self lines index line (omega arith)

pub get_elem?-set_other :
    (lines : List Bytes) (i j : ℕ) (line : Bytes)
    → i ≢ j
    → get_elem? (set lines i line) j ≡ get_elem? lines j
get_elem?-set_other [] i j line h = refl
get_elem?-set_other (l ∷ lines) zero zero line h = absurd (h refl)
get_elem?-set_other (l ∷ lines) zero (suc j) line h = refl
get_elem?-set_other (l ∷ lines) (suc i) zero line h = refl
get_elem?-set_other (l ∷ lines) (suc i) (suc j) line h =
    get_elem?-set_other lines i j line (λ e. h (ap suc e))
