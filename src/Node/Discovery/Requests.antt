-- ===== src/Node/Discovery/Requests.antt =====
-- crates/node/src/rendezvous/store.rs: sequences of requests and expiries.
use envshare.Prelude.{
  ℕ, ◌≤◌, ◌<◌, ◌≡◌, refl, subst, ◌⊎◌, inl, inr, Bool, true, false, not, ◌&&◌, ◌||◌, Option, List,
  leb, length, Bytes, bytes_eq, arith, Bool-cases, Option-cases, ok,
}
use envshare.Node.Maps.{Map, get, contains_key, retain, insert, length-retain, length-insert}
use envshare.Node.Store.{
  Limits, Key, Store, RateState, Operation, same_key, new, is_current, rate_or, charge,
  admit_current, admit,
}
use envshare.Node.Discovery.{
  count_peer, count_namespace, is_full, insert_cookie, serve, PeerRecord, check_registration,
}
use envshare.Node.Discovery.Calls.{Call, calls, IsInvariant, calls_keep}
use envshare.Node.Discovery.Bounds.{
  IsBounded, remove_registration-IsBounded, store_registration-IsBounded,
}

with_rates :
    (config : Limits) (s : Store) (rates : Map Bytes RateState)
    → IsBounded config s
    → length rates ≤ config.rate_peers
    → IsBounded config (record s { rates = rates })
with_rates config s rates h le = record {
  config_eq = h.config_eq;
  total = h.total;
  per_peer = h.per_peer;
  per_namespace = h.per_namespace;
  rates = le;
}

abbrev rates_full : Store → Bytes → Bool
rates_full s peer =
    not (contains_key bytes_eq peer s.rates) && leb s.config.rate_peers (length s.rates)

rates_room :
    (s : Store) (peer : Bytes)
    → rates_full s peer ≡ false
    → (contains_key bytes_eq peer s.rates ≡ true) ⊎ (length s.rates < s.config.rate_peers)
rates_room s peer f = ground arith

charged :
    (s : Store) (peer : Bytes) (state : RateState) (config : Limits)
    → IsBounded config s
    → rates_full s peer ≡ false
    → IsBounded config (record s { rates = insert bytes_eq peer state s.rates })
charged s peer state config h f = with_rates config s (insert bytes_eq peer state s.rates) h (
    length-insert bytes_eq peer state s.rates config.rate_peers h.rates (
      subst (λ c. (contains_key bytes_eq peer s.rates ≡ true) ⊎ (length s.rates < c.rate_peers))
        h.config_eq (rates_room s peer f)))

admit_current-IsBounded :
    (config : Limits) (s : Store) (peer : Bytes) (operation : Operation) (now : ℕ)
    → IsBounded config s
    → IsBounded config (admit_current s peer operation now).1
unfolding admit_current
admit_current-IsBounded config s peer operation now h = elim (Bool-cases (rates_full s peer)) [
  | inl t ↦ rw t h
  | inr f ↦
      let fresh : RateState = record { window_started = now; registrations = 0; discoveries = 0 } in
      let state = rate_or (get bytes_eq peer s.rates) fresh in
      rw f (elim (Option-cases (charge s.config operation state)) [
        | inl n ↦ rw n (charged s peer state config h f)
        | inr (c, q) ↦ rw q (charged s peer c config h f)
      ])
]

admit-IsBounded :
    (config : Limits) (s : Store) (peer : Bytes) (operation : Operation) (now : ℕ)
    → IsBounded config s
    → IsBounded config (admit s peer operation now).1
unfolding admit
admit-IsBounded config s peer operation now h =
    admit_current-IsBounded config
      (record s { rates = retain (λ e. is_current now e.value) s.rates }) peer operation now
      (with_rates config s (retain (λ e. is_current now e.value) s.rates) h
        (omega (arith, h.rates, length-retain (λ e. is_current now e.value) s.rates)))

serve-IsBounded :
    (config : Limits) (s : Store) (peer namespace : Bytes) (seen : List ℕ) (limit : Option ℕ)
    → IsBounded config s
    → IsBounded config (serve s peer namespace seen limit).1
unfolding serve insert_cookie
serve-IsBounded config s peer namespace seen limit h = record {
  config_eq = h.config_eq;
  total = h.total;
  per_peer = h.per_peer;
  per_namespace = h.per_namespace;
  rates = h.rates;
}

pub new-IsBounded : (config : Limits) → IsBounded config (new config)
unfolding new count_peer count_namespace
new-IsBounded config = record {
  config_eq = refl;
  total = omega arith;
  per_peer = λ peer. omega arith;
  per_namespace = λ namespace. omega arith;
  rates = omega arith;
}

module _ (signed_record_of : Bytes → Option PeerRecord) where
  check_registration-room :
      (s : Store) (peer namespace signed_record : Bytes) (requested : Option ℕ) (ttl : ℕ)
      → check_registration signed_record_of s peer namespace signed_record requested ≡ ok ttl
      → let key : Key = record { peer = peer; namespace = namespace } in
        (contains_key same_key key s.registrations || not (is_full s key)) ≡ true
  unfolding check_registration
  check_registration-room s peer namespace signed_record requested ttl h = ground arith

  -- Each step keeps the limits.
  pub bounded : (config : Limits) → IsInvariant signed_record_of (IsBounded config)
  bounded config = record {
    admits = admit-IsBounded config;
    removes = remove_registration-IsBounded config;
    serves = serve-IsBounded config;
    registers = λ s peer namespace signed_record requested ttl now q h.
        store_registration-IsBounded config s (record { peer = peer; namespace = namespace })
          signed_record ttl now h
          (check_registration-room s peer namespace signed_record requested ttl q);
  }

  -- Over any sequence of requests and expiries, a store that `new` makes never has more
  -- registrations in all, of one peer or of one namespace, nor more rate entries, than its
  -- configuration allows, whatever the signed records decode to.
  pub calls-IsBounded :
      (config : Limits) (rest : List (Call signed_record_of))
      → IsBounded config (calls signed_record_of (new config) rest)
  calls-IsBounded config rest =
      calls_keep signed_record_of (IsBounded config) (bounded config) (new config) rest
        (new-IsBounded config)
