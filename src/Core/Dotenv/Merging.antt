-- ===== src/Core/Dotenv/Merging.antt =====
-- crates/core/src/local/dotenv.rs: what `merge_dotenv` keeps, replaces and adds.
use envshare.Prelude.{
  ℕ, zero, suc, ◌<◌, ◌≡◌, sym, ap, subst, ◌∙◌, inl, inr, true, Option, some, List, [], ◌∷◌, leb,
  length, Bytes, arith, ok, ok-inj, is_utf8, some-inj, guard-bind-eq-ok, >>=-eq-ok, Option-cases,
}
use envshare.Protocol.Limits.{max_payload_bytes}
use envshare.Core.Errors.{transfer}
use envshare.Core.BTreeMap.{get, contains_key}
use envshare.Core.Dotenv.{
  Environment, DotenvMergeMode, replace_existing, keep_existing, DotenvMergeSummary, Merge, initial,
  normalized_declaration, merge_variables, append_additions, newline_of, lines_of,
  declarations_from, declaration_key, concat, parse, merge_dotenv,
}
use envshare.Core.Dotenv.Selection.{parse-IsSorted}
use envshare.Core.Dotenv.Lines.{concat-lines_of, get_elem?}
use envshare.Core.Dotenv.Declarations.{last_declared, get-declarations_from}
use envshare.Core.Dotenv.Rounds.{
  missing, count_known, merge_variables-keep, IsDeclared, declared, replaced, replaced_line,
}

DotenvMergeSummary-eq :
    (s : DotenvMergeSummary) (added updated kept : ℕ)
    → s.added ≡ added
    → s.updated ≡ updated
    → s.kept ≡ kept
    → s ≡ record { added = added; updated = updated; kept = kept }
DotenvMergeSummary-eq s added updated kept a u k =
    ap (λ x. record { added = x; updated = s.updated; kept = s.kept }) a
    ∙ ap (λ x. record { added = added; updated = x; kept = s.kept }) u
    ∙ ap (λ x. record { added = added; updated = updated; kept = x }) k

get_elem?-lt :
    (lines : List Bytes) (index : ℕ) (line : Bytes)
    → get_elem? lines index ≡ some line
    → index < length lines
get_elem?-lt [] index line h = cc
get_elem?-lt (l ∷ lines) zero line h = omega arith
get_elem?-lt (l ∷ lines) (suc index) line h = omega (arith, get_elem?-lt lines index line h)

-- The declarations that `merge_dotenv` collects.
abbrev final_declarations : List Bytes → List (Bytes × ℕ)
final_declarations lines = declarations_from 0 lines []

final_declarations-IsDeclared :
    (lines : List Bytes) (key : Bytes) (index : ℕ)
    → get key (final_declarations lines) ≡ some index
    → IsDeclared lines key index
unfolding get
final_declarations-IsDeclared lines key index h = elim (declared 0 lines [] key index h) [
  | inl before ↦ cc before
  | inr (n, e, d) ↦ subst (IsDeclared lines key) (omega (arith, e)) d
]

final_declarations-inj :
    (lines : List Bytes) (a b : Bytes) (index : ℕ)
    → get a (final_declarations lines) ≡ some index
    → get b (final_declarations lines) ≡ some index
    → a ≡ b
unfolding IsDeclared
final_declarations-inj lines a b index ha hb =
    let (line, e, d) = final_declarations-IsDeclared lines a index ha in
    let (line', e', d') = final_declarations-IsDeclared lines b index hb in
    some-inj (sym d ∙ ap declaration_key (some-inj (sym e ∙ e')) ∙ d')

final_declarations-lt :
    (lines : List Bytes) (key : Bytes) (index : ℕ)
    → get key (final_declarations lines) ≡ some index
    → index < length lines
unfolding IsDeclared
final_declarations-lt lines key index h =
    let (line, e, d) = final_declarations-IsDeclared lines key index h in
    get_elem?-lt lines index line e

final_declarations-last_declared :
    (lines : List Bytes) (key : Bytes) (index : ℕ)
    → get key (final_declarations lines) ≡ some index
    → last_declared key lines ≡ some index
unfolding get
final_declarations-last_declared lines key index h =
    let found = sym (get-declarations_from 0 lines [] key) ∙ h in
    elim (Option-cases (last_declared key lines)) [
      | inl n ↦ cc (rw n at found)
      | inr (i, e) ↦ e ∙ ap some (omega (arith, some-inj (rw e at found)))
    ]

module _ (read_iter : Bytes → List (Option (Bytes × Bytes))) where
  merge_parts :
      (existing received merged : Bytes) (mode : DotenvMergeMode) (summary : DotenvMergeSummary)
      (e r : Environment)
      → parse read_iter existing ≡ ok e
      → parse read_iter received ≡ ok r
      → merge_dotenv read_iter existing received mode ≡ ok (merged, summary)
      → (m : Merge) × (merge_variables mode e
            (final_declarations (lines_of existing))
            (newline_of existing)
            r
            (initial (lines_of existing))
          ≡ ok m)
        × (merged ≡ append_additions (concat m.lines) m.additions (newline_of existing))
        × (summary ≡ m.summary)
  unfolding merge_dotenv
  merge_parts existing received merged mode summary e r pe pr h =
      let h0 = rw (pe, pr, merge_dotenv) at h in
      let (valid, h1) = guard-bind-eq-ok (is_utf8 existing) transfer _ h0 in
      let (m, merges, h2) =
        >>=-eq-ok
          (merge_variables mode e (final_declarations (lines_of existing)) (newline_of existing) r
            (initial (lines_of existing)))
          _ h1 in
      let text = append_additions (concat m.lines) m.additions (newline_of existing) in
      let (fits, h3) = guard-bind-eq-ok (leb (length text) max_payload_bytes) transfer _ h2 in
      let result = ok-inj h3 in (m, merges, ap (λ p. p.0) (sym result), ap (λ p. p.1) (sym result))

  -- When existing values are kept, a merge that succeeds gives the existing document, byte for
  -- byte, followed by the received variables that it does not have, and the summary counts these as
  -- added and the others as kept.
  pub merge_dotenv_keeps :
      (existing received merged : Bytes) (summary : DotenvMergeSummary) (e r : Environment)
      → parse read_iter existing ≡ ok e
      → parse read_iter received ≡ ok r
      → merge_dotenv read_iter existing received keep_existing ≡ ok (merged, summary)
      → let additions = missing e (newline_of existing) r in
        (merged ≡ append_additions existing additions (newline_of existing))
        × (summary ≡ record { added = length additions; updated = 0; kept = count_known e r })
  merge_dotenv_keeps existing received merged summary e r pe pr h =
      let newline = newline_of existing in
      let lines = lines_of existing in
      let (m, merges, merged_eq, summary_eq) =
        merge_parts existing received merged keep_existing summary e r pe pr h in
      let kept = ok-inj (
        sym merges ∙ merge_variables-keep e (final_declarations lines) newline r (initial lines)) in
      (
        merged_eq
            ∙ ap (λ (x : Merge). append_additions (concat x.lines) x.additions newline) kept
            ∙ ap (λ text. append_additions text (missing e newline r) newline)
                (concat-lines_of existing),
        summary_eq ∙ ap (λ (x : Merge). x.summary) kept ∙ ground arith,
      )

  -- When existing values are replaced, a merge that succeeds gives as many lines as the document
  -- had, followed by the received variables that it does not have; for a received key that the
  -- document has, the last line that declared it is now the declaration of the received value; the
  -- summary counts the added and the updated variables.
  pub merge_dotenv_replaces :
      (existing received merged key value : Bytes) (summary : DotenvMergeSummary)
      (e r : Environment)
      → parse read_iter existing ≡ ok e
      → parse read_iter received ≡ ok r
      → get key r ≡ some value
      → contains_key key e ≡ true
      → merge_dotenv read_iter existing received replace_existing ≡ ok (merged, summary)
      → (lines : List Bytes) × (index : ℕ) × (merged
          ≡ append_additions
              (concat lines)
              (missing e (newline_of existing) r)
              (newline_of existing))
        × (length lines ≡ length (lines_of existing))
        × (last_declared key (lines_of existing) ≡ some index)
        × (get_elem? lines index ≡ some (normalized_declaration key value (newline_of existing)))
        × (summary ≡ record {
          added = length (missing e (newline_of existing) r);
          updated = count_known e r;
          kept = 0;
        })
  merge_dotenv_replaces existing received merged key value summary e r pe pr found t h =
      let newline = newline_of existing in
      let lines = lines_of existing in
      let (m, merges, merged_eq, summary_eq) =
        merge_parts existing received merged replace_existing summary e r pe pr h in
      let (additions_eq, added, updated, kept, size) =
        replaced e (final_declarations lines) newline r (initial lines) m merges in
      let (index, q, line) =
        replaced_line e (final_declarations lines) newline key value r (initial lines) m
          (final_declarations-inj lines) (final_declarations-lt lines)
          (parse-IsSorted read_iter received r pr) found t merges in
      (
        m.lines,
        index,
        merged_eq ∙ ap (λ a. append_additions (concat m.lines) a newline) additions_eq,
        size,
        final_declarations-last_declared lines key index q,
        line,
        summary_eq
            ∙ DotenvMergeSummary-eq m.summary (length (missing e newline r)) (count_known e r) 0
                (omega (arith, added)) (omega (arith, updated)) kept,
      )
