-- ===== src/Node/Discovery/Pages.antt =====
-- crates/node/src/rendezvous/store.rs: what a page of `discover` holds.
use mathlib.Core.List.{Perm}
use mathlib.Core.List.Perm
use envshare.Prelude.{
  ℕ, zero, suc, ◌≤◌, ◌≡◌, refl, sym, ap, ap₂, subst, ◌∙◌, inl, inr, Bool, not, ◌&&◌, Option, none,
  some, List, [], ◌∷◌, ◌++◌, map, min, leb, ◌==◌, length, length-take, take, drop, all, All, Bytes,
  bytes_eq, arith, Bool-cases,
}
use envshare.Node.Maps.{Map, Entry, retain}
use envshare.Node.Store.{Registration, Key, Store}
use envshare.Node.Discovery.{
  Candidate, candidates, has_seen, insert_sorted, sort_by_id, page, or_default,
}

-- The registration is of the namespace, and its id is not one of those that were seen.
unfoldable pub is_unseen : Bytes → List ℕ → Entry Key Registration → Bool
is_unseen namespace seen e =
    bytes_eq e.key.namespace namespace && all (λ id. not (id == e.value.id)) seen

-- What a page shows of a registration.
unfoldable pub candidate_of : Entry Key Registration → Candidate
candidate_of e = record {
  id = e.value.id;
  wire = record {
    namespace = e.key.namespace;
    signed_record = e.value.signed_record;
    ttl = e.value.ttl;
  };
}

-- The registrations of the namespace that were not seen, as a page shows them.
unfoldable pub unseen : Bytes → List ℕ → Map Key Registration → List Candidate
unseen namespace seen m = map candidate_of (retain (is_unseen namespace seen) m)

-- How many registrations are asked for, within the configured number.
abbrev pub asked_for : Option ℕ → ℕ → ℕ
asked_for none results = results
asked_for (some limit) results = min limit results

pub IsAbove : ℕ → Candidate → Type 0
IsAbove id c = id ≤ c.id

-- In the order of the ids, which is that of the registrations.
pub IsSorted : List Candidate → Type 0
IsSorted [] = Unit {0}
IsSorted (c ∷ rest) = All (IsAbove c.id) rest × IsSorted rest

not-has_seen :
    (id : ℕ) (seen : List ℕ) → not (has_seen id seen) ≡ all (λ other. not (other == id)) seen
unfolding has_seen
not-has_seen id [] = refl
not-has_seen id (other ∷ seen) = ground (arith, not-has_seen id seen)

candidates-unseen :
    (namespace : Bytes) (seen : List ℕ) (m : Map Key Registration)
    → candidates namespace seen m ≡ unseen namespace seen m
unfolding candidates unseen retain is_unseen candidate_of
candidates-unseen namespace seen [] = refl
candidates-unseen namespace seen (e ∷ m) =
    rw not-has_seen (ground (arith, candidates-unseen namespace seen m))

insert_sorted-perm : (c : Candidate) (cs : List Candidate) → Perm (insert_sorted c cs) (c ∷ cs)
unfolding insert_sorted
insert_sorted-perm c [] = Perm.rfl
insert_sorted-perm c (d ∷ cs) = elim (Bool-cases (leb c.id d.id)) [
  | inl t ↦ rw t Perm.rfl
  | inr f ↦ rw f (Perm.trans (Perm.cons d (insert_sorted-perm c cs)) (Perm.swap c d cs))
]

sort_by_id-perm : (cs : List Candidate) → Perm (sort_by_id cs) cs
unfolding sort_by_id
sort_by_id-perm [] = Perm.nil
sort_by_id-perm (c ∷ cs) =
    Perm.trans (insert_sorted-perm c (sort_by_id cs)) (Perm.cons c (sort_by_id-perm cs))

All-insert_sorted :
    (P : Candidate → Type 0) (c : Candidate) (rest : List Candidate)
    → P c
    → All P rest
    → All P (insert_sorted c rest)
unfolding insert_sorted
All-insert_sorted P c [] p h = (p, tt)
All-insert_sorted P c (d ∷ rest) p (q, h) = elim (Bool-cases (leb c.id d.id)) [
  | inl t ↦ rw t (p, (q, h))
  | inr f ↦ rw f (q, All-insert_sorted P c rest p h)
]

pub All-sort_by_id :
    (P : Candidate → Type 0) (cs : List Candidate) → All P cs → All P (sort_by_id cs)
unfolding sort_by_id
All-sort_by_id P [] h = tt
All-sort_by_id P (c ∷ cs) (p, h) = All-insert_sorted P c (sort_by_id cs) p (All-sort_by_id P cs h)

pub All-take : (P : Candidate → Type 0) (n : ℕ) (cs : List Candidate) → All P cs → All P (take n cs)
All-take P zero cs h = tt
All-take P (suc n) [] h = tt
All-take P (suc n) (c ∷ cs) (p, h) = (p, All-take P n cs h)

All-IsAbove : (a b : ℕ) (cs : List Candidate) → a ≤ b → All (IsAbove b) cs → All (IsAbove a) cs
unfolding IsAbove
All-IsAbove a b [] h k = tt
All-IsAbove a b (c ∷ cs) h (p, k) = (omega arith, All-IsAbove a b cs h k)

insert_sorted-IsSorted :
    (c : Candidate) (cs : List Candidate) → IsSorted cs → IsSorted (insert_sorted c cs)
unfolding insert_sorted IsSorted IsAbove
insert_sorted-IsSorted c [] h = (tt, tt)
insert_sorted-IsSorted c (d ∷ cs) (above, h) = elim (Bool-cases (leb c.id d.id)) [
  | inl t ↦
      let le : c.id ≤ d.id = ground (arith, t) in
      rw t ((le, All-IsAbove c.id d.id cs le above), (above, h))
  | inr f ↦
      let ge : d.id ≤ c.id = ground (arith, f) in
      rw f (All-insert_sorted (IsAbove d.id) c cs ge above, insert_sorted-IsSorted c cs h)
]

sort_by_id-IsSorted : (cs : List Candidate) → IsSorted (sort_by_id cs)
unfolding sort_by_id IsSorted
sort_by_id-IsSorted [] = tt
sort_by_id-IsSorted (c ∷ cs) = insert_sorted-IsSorted c (sort_by_id cs) (sort_by_id-IsSorted cs)

length-insert_sorted :
    (c : Candidate) (cs : List Candidate) → length (insert_sorted c cs) ≡ suc (length cs)
unfolding insert_sorted
length-insert_sorted c [] = refl
length-insert_sorted c (d ∷ cs) = ground (arith, length-insert_sorted c cs)

take-drop : (n : ℕ) (cs : List Candidate) → take n cs ++ drop n cs ≡ cs
take-drop zero cs = refl
take-drop (suc n) [] = refl
take-drop (suc n) (c ∷ cs) = ap (◌∷◌ c) (take-drop n cs)

requested-eq :
    (limit : Option ℕ) (results : ℕ)
    → min (or_default limit results) results ≡ asked_for limit results
requested-eq none results = omega arith
requested-eq (some limit) results = refl

length-sort_by_id : (cs : List Candidate) → length (sort_by_id cs) ≡ length cs
unfolding sort_by_id
length-sort_by_id [] = refl
length-sort_by_id (c ∷ cs) =
    omega (arith, length-insert_sorted c (sort_by_id cs), length-sort_by_id cs)

-- A page of `discover` is the front of a list in the order of the ids that holds exactly the
-- store's registrations of the namespace that were not seen, each with its namespace, record and
-- ttl; the page has as many as are asked for within the configured number, or all when there are
-- fewer.
pub page-IsSorted :
    (s : Store) (namespace : Bytes) (seen : List ℕ) (limit : Option ℕ)
    → (rest : List Candidate) × Perm
        (page s namespace seen limit ++ rest)
        (unseen namespace seen s.registrations)
      × IsSorted (page s namespace seen limit ++ rest)
      × (length (page s namespace seen limit)
          ≡ min (asked_for limit s.config.results) (length (unseen namespace seen s.registrations)))
unfolding page
page-IsSorted s namespace seen limit =
    let found = unseen namespace seen s.registrations in
    let sorted = sort_by_id (candidates namespace seen s.registrations) in
    let sorted_eq : sorted ≡ sort_by_id found =
      ap sort_by_id (candidates-unseen namespace seen s.registrations) in
    let requested = min (or_default limit s.config.results) s.config.results in
    let whole : take requested sorted ++ drop requested sorted ≡ sort_by_id found =
      take-drop requested sorted ∙ sorted_eq in
    (
      drop requested sorted,
      subst (λ l. Perm l found) (sym whole) (sort_by_id-perm found),
      subst IsSorted (sym whole) (sort_by_id-IsSorted found),
      length-take requested sorted
          ∙ ap (λ l. min requested (length l)) sorted_eq
          ∙ ap₂ min (requested-eq limit s.config.results) (length-sort_by_id found),
    )

pub length-page :
    (s : Store) (namespace : Bytes) (seen : List ℕ) (limit : Option ℕ)
    → length (page s namespace seen limit) ≤ s.config.results
length-page s namespace seen none = omega (arith, (page-IsSorted s namespace seen none).3)
length-page s namespace seen (some limit) =
    omega (arith, (page-IsSorted s namespace seen (some limit)).3)
