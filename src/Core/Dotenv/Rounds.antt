-- ===== src/Core/Dotenv/Rounds.antt =====
-- crates/core/src/local/dotenv.rs: the rounds of the loop over the received variables.
use envshare.Prelude.{
  ℕ, suc, ◌+◌, ◌<◌, ◌≡◌, ◌≢◌, refl, sym, ap, subst, ◌∙◌, ◌⊎◌, inl, inr, true, false, some, List, [],
  ◌∷◌, ◌++◌, append-nil, append_assoc, if◌then◌else◌, length, Bytes, arith, Bool-cases,
  Option-cases, ok, ok-inj, compare_bytes-eq, compare_bytes_refl, some-inj, All,
}
use envshare.Core.BTreeMap.{get, contains_key, insert, get-insert, order, IsSorted, IsAbove}
use envshare.Core.Dotenv.{
  Environment, replace_existing, keep_existing, Merge, add, normalized_declaration, merge_known,
  merge_variable, merge_variables, declarations_from, declaration_key, set,
}
use envshare.Core.Dotenv.Lines.{get_elem?, length-set, get_elem?-set_self, get_elem?-set_other}

-- The declarations of the received variables that the document does not have.
pub missing : Environment → Bytes → Environment → List Bytes
missing existing newline [] = []
missing existing newline ((key, value) ∷ received) =
    let rest = missing existing newline received in
    if contains_key key existing then rest else normalized_declaration key value newline ∷ rest

-- How many of the received variables the document has.
pub count_known : Environment → Environment → ℕ
count_known existing [] = 0
count_known existing ((key, value) ∷ received) =
    let rest = count_known existing received in if contains_key key existing then suc rest else rest

pub merge_variables-keep :
    (existing : Environment) (declarations : List (Bytes × ℕ)) (newline : Bytes)
    (received : Environment) (m : Merge)
    → merge_variables keep_existing existing declarations newline received m
      ≡ ok (record {
        lines = m.lines;
        additions = m.additions ++ missing existing newline received;
        summary = record {
          added = m.summary.added + length (missing existing newline received);
          updated = m.summary.updated;
          kept = m.summary.kept + count_known existing received;
        };
      })
unfolding merge_variables missing count_known merge_variable add
merge_variables-keep existing declarations newline [] m = ground (arith, append-nil m.additions)
merge_variables-keep existing declarations newline ((key, value) ∷ received) m =
    elim (Bool-cases (contains_key key existing)) [
      | inl t ↦
          let m' = record m { summary = record (m.summary) { kept = m.summary.kept + 1 } } in
          rw t (ground (arith, merge_variables-keep existing declarations newline received m'))
      | inr f ↦
          let declaration = normalized_declaration key value newline in
          rw f (
            ground (
              arith,
              merge_variables-keep existing declarations newline received (add m declaration),
              append_assoc m.additions (declaration ∷ []) (missing existing newline received),
            ))
    ]

-- The line of this index declares the key.
unfoldable pub IsDeclared : List Bytes → Bytes → ℕ → Type 0
IsDeclared lines key index =
    (line : Bytes) × (get_elem? lines index ≡ some line) × (declaration_key line ≡ some key)

later :
    (base : ℕ) (line : Bytes) (lines : List Bytes) (declarations : List (Bytes × ℕ)) (key : Bytes)
    (i : ℕ)
    → (get key declarations ≡ some i) ⊎ ((n : ℕ) × (i ≡ base + 1 + n) × IsDeclared lines key n)
    → (get key declarations ≡ some i) ⊎ ((n : ℕ) × (i ≡ base + n) × IsDeclared (line ∷ lines) key n)
unfolding IsDeclared
later base line lines declarations key i (inl before) = inl before
later base line lines declarations key i (inr (n, e, d)) = inr (suc n, omega (arith, e), d)

inserted :
    (base : ℕ) (line : Bytes) (lines : List Bytes) (declarations : List (Bytes × ℕ))
    (key found : Bytes) (i : ℕ)
    → declaration_key line ≡ some found
    → get key (insert found base declarations) ≡ some i
    → (get key declarations ≡ some i) ⊎ ((n : ℕ) × (i ≡ base + n) × IsDeclared (line ∷ lines) key n)
unfolding IsDeclared
inserted base line lines declarations key found i q h =
    let law = get-insert key found base declarations in
    elim (order key found) [
      | inl l ↦ inl (ground (arith, law, l, h))
      | inr (inl e) ↦
          let key_eq = compare_bytes-eq key found e in
          inr (0, ground (arith, law, e, h), (line, refl, q ∙ ap some (sym key_eq)))
      | inr (inr g) ↦ inl (ground (arith, law, g, h))
    ]

pub declared :
    (base : ℕ) (lines : List Bytes) (declarations : List (Bytes × ℕ)) (key : Bytes) (i : ℕ)
    → get key (declarations_from base lines declarations) ≡ some i
    → (get key declarations ≡ some i) ⊎ ((n : ℕ) × (i ≡ base + n) × IsDeclared lines key n)
unfolding declarations_from IsDeclared
declared base [] declarations key i h = inl h
declared base (line ∷ lines) declarations key i h = elim (Option-cases (declaration_key line)) [
  | inl n ↦
      later base line lines declarations key i
        (declared (base + 1) lines declarations key i (rw (n, declarations_from) at h))
  | inr (found, q) ↦
      elim (declared (base + 1) lines (insert found base declarations) key i
        (rw (q, declarations_from) at h)) [
          | inl before ↦ inserted base line lines declarations key found i q before
          | inr (n, e, d) ↦ inr (suc n, omega (arith, e), d)
        ]
]

-- A merge that replaces: what the rounds that are left do.
module _ (existing : Environment) (declarations : List (Bytes × ℕ)) (newline : Bytes) where
  abbrev updated_at : Merge → ℕ → Bytes → Merge
  updated_at m index declaration = record m {
    lines = set m.lines index declaration;
    summary = record (m.summary) { updated = m.summary.updated + 1 };
  }

  replace_known :
      (key value : Bytes) (received : Environment) (m m' : Merge)
      → contains_key key existing ≡ true
      → merge_variables replace_existing existing declarations newline ((key, value) ∷ received) m
        ≡ ok m'
      → (index : ℕ) × (get key declarations ≡ some index)
        × (merge_variables replace_existing existing declarations newline received
              (updated_at m index (normalized_declaration key value newline))
            ≡ ok m')
  unfolding merge_variables merge_variable
  replace_known key value received m m' t h = elim (Option-cases (get key declarations)) [
    | inl n ↦ cc (rw (n, merge_known) at (rw (t, merge_variable) at h))
    | inr (index, q) ↦ (index, q, rw (q, merge_known) at (rw (t, merge_variable) at h))
  ]

  replace_new :
      (key value : Bytes) (received : Environment) (m m' : Merge)
      → contains_key key existing ≡ false
      → merge_variables replace_existing existing declarations newline ((key, value) ∷ received) m
        ≡ ok m'
      → merge_variables replace_existing existing declarations newline received
          (add m (normalized_declaration key value newline))
        ≡ ok m'
  unfolding merge_variables merge_variable
  replace_new key value received m m' f h = rw (f, merge_variable) at h

  replaced_nil :
      (m m' : Merge)
      → merge_variables replace_existing existing declarations newline [] m ≡ ok m'
      → (m'.additions ≡ m.additions ++ [])
        × (m'.summary.added ≡ m.summary.added + 0)
        × (m'.summary.updated ≡ m.summary.updated + 0)
        × (m'.summary.kept ≡ m.summary.kept)
        × (length m'.lines ≡ length m.lines)
  unfolding merge_variables
  replaced_nil m m' h =
      let e = ok-inj h in
      (
        ap (λ (x : Merge). x.additions) (sym e) ∙ sym (append-nil m.additions),
        ap (λ (x : Merge). x.summary.added) (sym e) ∙ omega arith,
        ap (λ (x : Merge). x.summary.updated) (sym e) ∙ omega arith,
        ap (λ (x : Merge). x.summary.kept) (sym e),
        ap (λ (x : Merge). length x.lines) (sym e),
      )

  -- What all rounds add and count.
  pub replaced :
      (received : Environment) (m m' : Merge)
      → merge_variables replace_existing existing declarations newline received m ≡ ok m'
      → (m'.additions ≡ m.additions ++ missing existing newline received)
        × (m'.summary.added ≡ m.summary.added + length (missing existing newline received))
        × (m'.summary.updated ≡ m.summary.updated + count_known existing received)
        × (m'.summary.kept ≡ m.summary.kept)
        × (length m'.lines ≡ length m.lines)
  unfolding missing count_known add
  replaced [] m m' h = replaced_nil m m' h
  replaced ((key, value) ∷ received) m m' h =
      let declaration = normalized_declaration key value newline in
      elim (Bool-cases (contains_key key existing)) [
        | inl t ↦
            let (index, q, rest) = replace_known key value received m m' t h in
            let (a, b, c, d, e) = replaced received (updated_at m index declaration) m' rest in
            rw t (a, b, omega (arith, c), d, e ∙ length-set m.lines index declaration)
        | inr f ↦
            let (a, b, c, d, e) =
              replaced received (add m declaration) m' (replace_new key value received m m' f h) in
            rw f (
              a ∙ append_assoc m.additions (declaration ∷ []) (missing existing newline received),
              omega (arith, b),
              c,
              d,
              e,
            )
      ]

  -- No variable is declared last on this line.
  abbrev IsUntouched : ℕ → Environment → Type 0
  IsUntouched index received = All (λ e. get e.0 declarations ≢ some index) received

  untouched :
      (index : ℕ) (received : Environment) (m m' : Merge)
      → IsUntouched index received
      → merge_variables replace_existing existing declarations newline received m ≡ ok m'
      → get_elem? m'.lines index ≡ get_elem? m.lines index
  unfolding merge_variables add
  untouched index [] m m' u h = ap (λ (x : Merge). get_elem? x.lines index) (sym (ok-inj h))
  untouched index ((key, value) ∷ received) m m' (p, u) h =
      let declaration = normalized_declaration key value newline in
      elim (Bool-cases (contains_key key existing)) [
        | inl t ↦
            let (i, q, rest) = replace_known key value received m m' t h in
            untouched index received (updated_at m i declaration) m' u rest
            ∙ get_elem?-set_other m.lines i index declaration (λ e. p (q ∙ ap some e))
        | inr f ↦
            untouched index received (add m declaration) m' u
              (replace_new key value received m m' f h)
      ]

  -- The later keys are declared elsewhere.
  pub others :
      (key : Bytes) (index : ℕ) (received : Environment)
      → ((a b : Bytes) (i : ℕ) → get a declarations ≡ some i → get b declarations ≡ some i → a ≡ b)
      → get key declarations ≡ some index
      → All (IsAbove key) received
      → IsUntouched index received
  unfolding IsAbove
  others key index [] inj q h = tt
  others key index ((k, v) ∷ received) inj q (p, h) =
      (λ e. cc (inj k key index e q, p, compare_bytes_refl key), others key index received inj q h)

  pub replaced_line :
      (key value : Bytes) (received : Environment) (m m' : Merge)
      → ((a b : Bytes) (i : ℕ) → get a declarations ≡ some i → get b declarations ≡ some i → a ≡ b)
      → ((a : Bytes) (i : ℕ) → get a declarations ≡ some i → i < length m.lines)
      → IsSorted received
      → get key received ≡ some value
      → contains_key key existing ≡ true
      → merge_variables replace_existing existing declarations newline received m ≡ ok m'
      → (index : ℕ) × (get key declarations ≡ some index)
        × (get_elem? m'.lines index ≡ some (normalized_declaration key value newline))
  unfolding get IsSorted add
  replaced_line key value [] m m' inj bound s found t h = cc
  replaced_line key value ((k, v) ∷ received) m m' inj bound (above, s) found t h =
      let declaration = normalized_declaration k v newline in
      elim (order key k) [
        | inl l ↦ cc (rw (l, get) at found)
        | inr (inl e) ↦
            let k_eq = compare_bytes-eq key k e in
            let v_eq : v ≡ value = some-inj (rw (e, get) at found) in
            let t' = subst (λ x. contains_key x existing ≡ true) k_eq t in
            let (index, q, rest) = replace_known k v received m m' t' h in
            let line =
              untouched index received (updated_at m index declaration) m'
                (others k index received inj q above) rest
              ∙ get_elem?-set_self m.lines index declaration (bound k index q) in
            (
              index,
              subst (λ x. get x declarations ≡ some index) (sym k_eq) q,
              subst (λ x. get_elem? m'.lines index ≡ some (normalized_declaration x value newline))
                  (sym k_eq)
                  (subst (λ x. get_elem? m'.lines index ≡ some (normalized_declaration k x newline))
                    v_eq line),
            )
        | inr (inr g) ↦
            let found' : get key received ≡ some value = rw (g, get) at found in
            elim (Bool-cases (contains_key k existing)) [
              | inl t' ↦
                  let (index, q, rest) = replace_known k v received m m' t' h in
                  replaced_line key value received (updated_at m index declaration) m' inj
                    (λ a i e.
                      subst (λ n. i < n) (sym (length-set m.lines index declaration)) (bound a i e))
                    s found' t rest
              | inr f ↦
                  replaced_line key value received (add m declaration) m' inj bound s found' t
                    (replace_new k v received m m' f h)
            ]
      ]
