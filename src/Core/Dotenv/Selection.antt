-- ===== src/Core/Dotenv/Selection.antt =====
-- crates/core/src/local/dotenv.rs: what `select_dotenv` selects.
use Prim.Native.Nat.{Ordering}
use envshare.Prelude.{
  ◌≤◌, ◌≡◌, refl, sym, ap, subst, ◌∙◌, ◌↔◌, inl, inr, Bool, true, false, not, ◌||◌, Option, none,
  some, List, [], ◌∷◌, leb, if◌then◌else◌, length, is_empty, all, All, Bytes, compare_bytes,
  compare_bytes-eq, compare_bytes_refl, arith, leb→le, le→leb, &&_iff, Bool-cases, Option-cases, ok,
  err, ok-inj, guard-bind-eq-ok, >>=-eq-ok,
}
use envshare.Protocol.Limits.{max_payload_bytes}
use envshare.Core.Errors.{transfer, configuration}
use envshare.Core.BTreeMap
use envshare.Core.BTreeMap.{
  get, contains_key, is_eq, IsAbove, IsSorted, insert-IsSorted, get-insert, get-inj, get_below,
  All-IsAbove, order,
}
use envshare.Core.Dotenv.{
  Environment, has_nul, insert_entries, select_keys, write_selected, parse, select_dotenv,
}

-- The key is one of the requested.
abbrev is_requested : Bytes → List Bytes → Bool
is_requested k [] = false
is_requested k (key ∷ keys) = is_eq (compare_bytes k key) || is_requested k keys

-- No key is requested twice.
abbrev pub IsDistinct : List Bytes → Type 0
IsDistinct [] = Unit {0}
IsDistinct (key ∷ keys) = (is_requested key keys ≡ false) × IsDistinct keys

-- The variables of these names, in the order of the environment.
pub restrict : List Bytes → Environment → Environment
restrict keys [] = []
restrict keys ((key, value) ∷ variables) =
    let rest = restrict keys variables in
    if is_requested key keys then (key, value) ∷ rest else rest

restrict-IsAbove :
    (k : Bytes) (keys : List Bytes) (m : Environment)
    → All (IsAbove k) m
    → All (IsAbove k) (restrict keys m)
unfolding restrict
restrict-IsAbove k keys [] h = tt
restrict-IsAbove k keys ((key, value) ∷ m) (p, h) = elim (Bool-cases (is_requested key keys)) [
  | inl t ↦ rw t (p, restrict-IsAbove k keys m h)
  | inr f ↦ rw f (restrict-IsAbove k keys m h)
]

restrict-IsSorted : (keys : List Bytes) (m : Environment) → IsSorted m → IsSorted (restrict keys m)
unfolding restrict IsSorted
restrict-IsSorted keys [] s = tt
restrict-IsSorted keys ((key, value) ∷ m) (above, s) = elim (Bool-cases (is_requested key keys)) [
  | inl t ↦ rw t (restrict-IsAbove key keys m above, restrict-IsSorted keys m s)
  | inr f ↦ rw f (restrict-IsSorted keys m s)
]

get-restrict :
    (k : Bytes) (keys : List Bytes) (m : Environment)
    → IsSorted m
    → get k (restrict keys m) ≡ (if is_requested k keys then get k m else none)
unfolding restrict get IsSorted
get-restrict k keys [] s = ground arith
get-restrict k keys ((key, value) ∷ m) (above, s) = ground (
  arith,
  get-restrict k keys m s,
  compare_bytes-eq k key,
  λ (lt : compare_bytes k key ≡ Ordering.lt). get_below k m (All-IsAbove k key m lt above),
)

insert_entries-IsSorted :
    (entries : List (Option (Bytes × Bytes))) (m parsed : Environment)
    → IsSorted m
    → insert_entries entries m ≡ ok parsed
    → IsSorted parsed
unfolding insert_entries
insert_entries-IsSorted [] m parsed s h = subst IsSorted (ok-inj h) s
insert_entries-IsSorted (none ∷ entries) m parsed s h = cc
insert_entries-IsSorted (some (key, value) ∷ entries) m parsed s h =
    insert_entries-IsSorted entries (BTreeMap.insert key value m) parsed
      (insert-IsSorted key value m s)
      (guard-bind-eq-ok (not (has_nul key || has_nul value)) transfer
        (insert_entries entries (BTreeMap.insert key value m)) h).1

-- The branch for one key, found or not.
abbrev selects : Bytes → Option Bytes → Environment → Environment
selects key none selected = selected
selects key (some value) selected = BTreeMap.insert key value selected

select_keys_step :
    (key : Bytes) (keys : List Bytes) (parsed : Environment) (allow : Bool)
    (selected result : Environment)
    → select_keys (key ∷ keys) parsed allow selected ≡ ok result
    → (contains_key key selected ≡ false)
      × ((allow || contains_key key parsed) ≡ true)
      × (select_keys keys parsed allow (selects key (get key parsed) selected) ≡ ok result)
unfolding select_keys contains_key
select_keys_step key keys parsed allow selected result h = elim (Option-cases (get key parsed)) [
  | inl n ↦ rw n (ground (arith, h, n), ground (arith, h, n), ground (arith, h, n))
  | inr (value, q) ↦ rw q (ground (arith, h, q), ground (arith, h, q), ground (arith, h, q))
]

absent : (k : Bytes) (m : Environment) → contains_key k m ≡ false → get k m ≡ none
unfolding contains_key
absent k m h = ground (arith, h)

get-select_keys :
    (k : Bytes) (keys : List Bytes) (parsed : Environment) (allow : Bool)
    (selected result : Environment)
    → select_keys keys parsed allow selected ≡ ok result
    → get k result ≡ (if is_requested k keys then get k parsed else get k selected)
unfolding select_keys
get-select_keys k [] parsed allow selected result h = ap (get k) (sym (ok-inj h))
get-select_keys k (key ∷ keys) parsed allow selected result h =
    let (fresh, known, rest) = select_keys_step key keys parsed allow selected result h in
    let found =
      get-select_keys k keys parsed allow (selects key (get key parsed) selected) result rest in
    elim (Option-cases (get key parsed)) [
      | inl n ↦
          let after : get k result
              ≡ (if is_requested k keys then get k parsed else get k selected) =
            rw n at found in
          ground (arith, after, n, compare_bytes-eq k key, absent key selected fresh)
      | inr (value, q) ↦
          let after : get k result ≡ (
              if is_requested k keys
              then get k parsed
              else get k (BTreeMap.insert key value selected)) =
            rw q at found in
          ground (arith, after, q, compare_bytes-eq k key, get-insert k key value selected)
    ]

selects-IsSorted :
    (key : Bytes) (found : Option Bytes) (selected : Environment)
    → IsSorted selected
    → IsSorted (selects key found selected)
selects-IsSorted key none selected s = s
selects-IsSorted key (some value) selected s = insert-IsSorted key value selected s

select_keys-IsSorted :
    (keys : List Bytes) (parsed : Environment) (allow : Bool) (selected result : Environment)
    → select_keys keys parsed allow selected ≡ ok result
    → IsSorted selected
    → IsSorted result
unfolding select_keys
select_keys-IsSorted [] parsed allow selected result h s = subst IsSorted (ok-inj h) s
select_keys-IsSorted (key ∷ keys) parsed allow selected result h s =
    let (fresh, known, rest) = select_keys_step key keys parsed allow selected result h in
    select_keys-IsSorted keys parsed allow (selects key (get key parsed) selected) result rest
      (selects-IsSorted key (get key parsed) selected s)

select_keys_known :
    (keys : List Bytes) (parsed : Environment) (allow : Bool) (selected result : Environment)
    → select_keys keys parsed allow selected ≡ ok result
    → all (λ k. allow || contains_key k parsed) keys ≡ true
unfolding select_keys
select_keys_known [] parsed allow selected result h = refl
select_keys_known (key ∷ keys) parsed allow selected result h =
    let (fresh, known, rest) = select_keys_step key keys parsed allow selected result h in
    rw known
      (select_keys_known keys parsed allow (selects key (get key parsed) selected) result rest)

-- None of the requested keys is selected yet.
abbrev Fresh : List Bytes → Environment → Type 0
Fresh keys selected = All (λ k. contains_key k selected ≡ false) keys

Fresh-insert :
    (key value : Bytes) (keys : List Bytes) (selected : Environment)
    → is_requested key keys ≡ false
    → Fresh keys selected
    → Fresh keys (BTreeMap.insert key value selected)
unfolding contains_key
Fresh-insert key value [] selected d h = tt
Fresh-insert key value (k ∷ keys) selected d (p, h) = (
  ground
      (arith, get-insert k key value selected, compare_bytes-eq k key, compare_bytes_refl k, d, p),
  Fresh-insert key value keys selected (ground (arith, d)) h,
)

permitted :
    (key : Bytes) (parsed : Environment) (allow : Bool)
    → (allow || contains_key key parsed) ≡ true
    → get key parsed ≡ none
    → allow ≡ true
unfolding contains_key
permitted key parsed allow known n = ground (arith, known, n)

Fresh-nil : (keys : List Bytes) → Fresh keys []
unfolding contains_key get
Fresh-nil [] = tt
Fresh-nil (key ∷ keys) = (refl, Fresh-nil keys)

-- A key that may be missing is skipped.
skipped :
    (allow : Bool) (selected : Environment)
    → allow ≡ true
    → (if allow then ok selected else err transfer) ≡ ok selected
skipped allow selected h = rw h refl

select_keys_total :
    (keys : List Bytes) (parsed : Environment) (allow : Bool) (selected : Environment)
    → IsDistinct keys
    → Fresh keys selected
    → all (λ k. allow || contains_key k parsed) keys ≡ true
    → (result : Environment) × (select_keys keys parsed allow selected ≡ ok result)
unfolding select_keys
select_keys_total [] parsed allow selected d f a = (selected, refl)
select_keys_total (key ∷ keys) parsed allow selected (d, ds) (f, fs) a =
    let (known, rest) = (&&_iff (allow || contains_key key parsed) _).0 a in
    elim (Option-cases (get key parsed)) [
      | inl n ↦
          let open_ : allow ≡ true = permitted key parsed allow known n in
          let (result, e) = select_keys_total keys parsed allow selected ds fs rest in
          (result, rw (f, n, skipped allow selected open_) e)
      | inr (value, q) ↦
          let (result, e) =
            select_keys_total keys parsed allow (BTreeMap.insert key value selected) ds
              (Fresh-insert key value keys selected d fs) rest in
          (result, rw (f, q) e)
    ]

pub parse-IsSorted :
    (read_iter : Bytes → List (Option (Bytes × Bytes))) (payload : Bytes) (parsed : Environment)
    → parse read_iter payload ≡ ok parsed
    → IsSorted parsed
unfolding parse IsSorted
parse-IsSorted read_iter payload parsed h =
    insert_entries-IsSorted (read_iter payload) [] parsed tt
      (guard-bind-eq-ok (leb (length payload) max_payload_bytes) transfer
        (insert_entries (read_iter payload) []) h).1

-- What is selected is the restriction, whatever the order of the keys.
selected-eq-restrict :
    (keys : List Bytes) (parsed : Environment) (allow : Bool) (result : Environment)
    → IsSorted parsed
    → select_keys keys parsed allow [] ≡ ok result
    → result ≡ restrict keys parsed
unfolding IsSorted get
selected-eq-restrict keys parsed allow result s h =
    get-inj result (restrict keys parsed) (select_keys-IsSorted keys parsed allow [] result h tt)
      (restrict-IsSorted keys parsed s)
      (λ k. get-select_keys k keys parsed allow [] result h ∙ sym (get-restrict k keys parsed s))

module _ (read_iter : Bytes → List (Option (Bytes × Bytes))) where
  select_dotenv_sound :
      (payload out : Bytes) (keys : List Bytes) (allow : Bool) (parsed : Environment)
      → parse read_iter payload ≡ ok parsed
      → select_dotenv read_iter payload keys allow ≡ ok out
      → (is_empty keys ≡ false)
        × (all (λ k. allow || contains_key k parsed) keys ≡ true)
        × (length out ≤ max_payload_bytes)
        × (out ≡ write_selected (restrict keys parsed))
  unfolding select_dotenv
  select_dotenv_sound payload out keys allow parsed p h =
      let (some_key, h1) =
        guard-bind-eq-ok (not (is_empty keys)) configuration _ (rw (p, select_dotenv) at h) in
      let (result, selected, h2) = >>=-eq-ok (select_keys keys parsed allow []) _ h1 in
      let result_eq =
        selected-eq-restrict keys parsed allow result (parse-IsSorted read_iter payload parsed p)
          selected in
      let (fits, written) =
        guard-bind-eq-ok (leb (length (write_selected result)) max_payload_bytes) transfer _ h2 in
      let out_eq = sym (ok-inj written) ∙ ap write_selected result_eq in
      (
        ground (arith, some_key),
        select_keys_known keys parsed allow [] result selected,
        subst (λ text. length text ≤ max_payload_bytes) (ok-inj written) (leb→le _ _ fits),
        out_eq,
      )

  select_dotenv_complete :
      (payload : Bytes) (keys : List Bytes) (allow : Bool) (parsed : Environment)
      → parse read_iter payload ≡ ok parsed
      → IsDistinct keys
      → is_empty keys ≡ false
      → all (λ k. allow || contains_key k parsed) keys ≡ true
      → length (write_selected (restrict keys parsed)) ≤ max_payload_bytes
      → select_dotenv read_iter payload keys allow ≡ ok (write_selected (restrict keys parsed))
  unfolding select_dotenv
  select_dotenv_complete payload keys allow parsed p distinct nonempty known le =
      let (result, e) = select_keys_total keys parsed allow [] distinct (Fresh-nil keys) known in
      let result_eq =
        selected-eq-restrict keys parsed allow result (parse-IsSorted read_iter payload parsed p)
          e in
      let e' = subst (λ m. select_keys keys parsed allow [] ≡ ok m) result_eq e in
      rw (nonempty, p, e', le→leb _ _ le) refl

  -- For a payload that parses and keys that are distinct, `select_dotenv` gives a text exactly when
  -- a key is requested, all requested keys are declared or may be missing, and the text is that of
  -- the requested variables in the order of the environment and is within the payload bound.
  pub select_dotenv_iff :
      (payload out : Bytes) (keys : List Bytes) (allow : Bool) (parsed : Environment)
      → parse read_iter payload ≡ ok parsed
      → IsDistinct keys
      → (select_dotenv read_iter payload keys allow ≡ ok out) ↔ (
          (is_empty keys ≡ false)
          × (all (λ k. allow || contains_key k parsed) keys ≡ true)
          × (length out ≤ max_payload_bytes)
          × (out ≡ write_selected (restrict keys parsed)))
  select_dotenv_iff payload out keys allow parsed p distinct = (
    select_dotenv_sound payload out keys allow parsed p,
    λ h.
        let (nonempty, known, le, out_eq) = h in
        select_dotenv_complete payload keys allow parsed p distinct nonempty known
          (subst (λ text. length text ≤ max_payload_bytes) out_eq le)
        ∙ ap ok (sym out_eq),
  )
