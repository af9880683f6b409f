-- ===== src/Node/Discovery/Records.antt =====
-- crates/node/src/rendezvous/store.rs: the sizes of what the store holds and of the pages it serves.
use envshare.Prelude.{
  ℕ, ◌≤◌, ◌≡◌, refl, sym, subst, inl, inr, true, not, ◌&&◌, Option, List, [], ◌∷◌, leb, length, All,
  Bytes, bytes_eq, arith, Bool-cases, Option-cases, ok,
}
use envshare.Node.Maps.{Entry, Map, get, contains_key, retain, remove, insert, All-retain}
use envshare.Node.Address.{valid_namespace}
use envshare.Node.Store.{
  Limits, Registration, Key, Store, RateState, Operation, same_key, new, is_current, rate_or,
  charge, admit_current, admit, remove_registration, remove_from_cookies,
}
use envshare.Node.Discovery.{
  PeerRecord, Candidate, candidates, sort_by_id, page, insert_cookie, serve, store_registration,
  validate_record, check_registration, has_seen,
}
use envshare.Node.Discovery.Calls.{Call, calls, IsInvariant, calls_keep}
use envshare.Node.Discovery.Pages.{All-sort_by_id, All-take}

-- A namespace of the protocol, and a record within the limit.
abbrev FitsEntry : Limits → Entry Key Registration → Type 0
FitsEntry config e =
    (length e.key.namespace ≡ 44) × (length e.value.signed_record ≤ config.record_bytes)

pub record HasRecords (config : Limits) (s : Store) : Type 0 where
  pub config_eq : s.config ≡ config
  pub entries : All (FitsEntry config) s.registrations

admit_current_keeps :
    (s : Store) (peer : Bytes) (operation : Operation) (now : ℕ)
    → ((admit_current s peer operation now).1.config ≡ s.config)
      × ((admit_current s peer operation now).1.registrations ≡ s.registrations)
unfolding admit_current
admit_current_keeps s peer operation now =
    elim (Bool-cases
      (not (contains_key bytes_eq peer s.rates) && leb s.config.rate_peers (length s.rates))) [
        | inl t ↦ rw t (refl, refl)
        | inr f ↦
            let fresh : RateState = record {
              window_started = now;
              registrations = 0;
              discoveries = 0;
            } in
            let state = rate_or (get bytes_eq peer s.rates) fresh in
            rw f (elim (Option-cases (charge s.config operation state)) [
              | inl n ↦ rw n (refl, refl)
              | inr (c, q) ↦ rw q (refl, refl)
            ])
      ]

pub admit-HasRecords :
    (config : Limits) (s : Store) (peer : Bytes) (operation : Operation) (now : ℕ)
    → HasRecords config s
    → HasRecords config (admit s peer operation now).1
unfolding admit
admit-HasRecords config s peer operation now h =
    let current = record s { rates = retain (λ e. is_current now e.value) s.rates } in
    let (config_eq, entries_eq) = admit_current_keeps current peer operation now in
    record {
      config_eq = subst (λ c. c ≡ config) (sym config_eq) h.config_eq;
      entries = subst (λ m. All (FitsEntry config) m) (sym entries_eq) h.entries;
    }

remove_registration-HasRecords :
    (config : Limits) (s : Store) (key : Key)
    → HasRecords config s
    → HasRecords config (remove_registration s key)
unfolding remove_registration remove_from_cookies remove
remove_registration-HasRecords config s key h =
    elim (Option-cases (get same_key key s.registrations)) [
      | inl n ↦ rw (n, remove_registration) h
      | inr (previous, q) ↦
          rw (q, remove_registration)
            (record {
              config_eq = h.config_eq;
              entries =
                  All-retain (FitsEntry config) (λ e. not (same_key key e.key)) s.registrations
                    h.entries;
            })
    ]

serve-HasRecords :
    (config : Limits) (s : Store) (peer namespace : Bytes) (seen : List ℕ) (limit : Option ℕ)
    → HasRecords config s
    → HasRecords config (serve s peer namespace seen limit).1
unfolding serve insert_cookie
serve-HasRecords config s peer namespace seen limit h = record {
  config_eq = h.config_eq;
  entries = h.entries;
}

pub valid_namespace-length :
    (namespace : Bytes) → valid_namespace namespace ≡ true → length namespace ≡ 44
unfolding valid_namespace
valid_namespace-length namespace h = ground (arith, h)

module _ (signed_record_of : Bytes → Option PeerRecord) where
  check_registration-Fits :
      (s : Store) (peer namespace signed_record : Bytes) (requested : Option ℕ) (ttl : ℕ)
      → check_registration signed_record_of s peer namespace signed_record requested ≡ ok ttl
      → (valid_namespace namespace ≡ true) × (length signed_record ≤ s.config.record_bytes)
  unfolding check_registration validate_record
  check_registration-Fits s peer namespace signed_record requested ttl h = ground arith

  store_registration-HasRecords :
      (config : Limits) (s : Store) (key : Key) (signed_record : Bytes) (ttl now : ℕ)
      → length key.namespace ≡ 44
      → length signed_record ≤ config.record_bytes
      → HasRecords config s
      → HasRecords config (store_registration s key signed_record ttl now)
  unfolding store_registration insert remove
  store_registration-HasRecords config s key signed_record ttl now ns le h =
      let h' = remove_registration-HasRecords config s key h in
      record {
        config_eq = h'.config_eq;
        entries = (
          (ns, le),
          All-retain (FitsEntry config) (λ e. not (same_key key e.key))
              (remove_registration s key).registrations h'.entries,
        );
      }

  records : (config : Limits) → IsInvariant signed_record_of (HasRecords config)
  records config = record {
    admits = admit-HasRecords config;
    removes = remove_registration-HasRecords config;
    serves = serve-HasRecords config;
    registers = λ s peer namespace signed_record requested ttl now q h.
        let (valid, le) = check_registration-Fits s peer namespace signed_record requested ttl q in
        store_registration-HasRecords config s (record { peer = peer; namespace = namespace })
          signed_record ttl now (valid_namespace-length namespace valid)
          (subst (λ c. length signed_record ≤ c.record_bytes) h.config_eq le) h;
  }

  pub calls-HasRecords :
      (config : Limits) (rest : List (Call signed_record_of))
      → HasRecords config (calls signed_record_of (new config) rest)
  unfolding new
  calls-HasRecords config rest =
      calls_keep signed_record_of (HasRecords config) (records config) (new config) rest
        (record { config_eq = refl; entries = tt })

-- A candidate for a page, as it is in the store.
abbrev pub FitsCandidate : Limits → Candidate → Type 0
FitsCandidate config c =
    (length c.wire.namespace ≡ 44) × (length c.wire.signed_record ≤ config.record_bytes)

candidates-FitsCandidate :
    (config : Limits) (namespace : Bytes) (seen : List ℕ) (m : Map Key Registration)
    → All (FitsEntry config) m
    → All (FitsCandidate config) (candidates namespace seen m)
unfolding candidates
candidates-FitsCandidate config namespace seen [] h = tt
candidates-FitsCandidate config namespace seen (e ∷ m) (p, h) =
    let rest = candidates-FitsCandidate config namespace seen m h in
    elim (Bool-cases (bytes_eq e.key.namespace namespace && not (has_seen e.value.id seen))) [
      | inl t ↦ rw t (p, rest)
      | inr f ↦ rw f rest
    ]

pub page-FitsCandidate :
    (config : Limits) (s : Store) (namespace : Bytes) (seen : List ℕ) (limit : Option ℕ)
    → HasRecords config s
    → All (FitsCandidate config) (page s namespace seen limit)
unfolding page
page-FitsCandidate config s namespace seen limit h =
    All-take (FitsCandidate config) _ (sort_by_id (candidates namespace seen s.registrations)) (
      All-sort_by_id (FitsCandidate config) (candidates namespace seen s.registrations)
        (candidates-FitsCandidate config namespace seen s.registrations h.entries))
