-- ===== src/Node/Discovery/Bounds.antt =====
-- crates/node/src/rendezvous/store.rs: the limits of the store.
use envshare.Prelude.{
  ℕ, ◌+◌, ◌≤◌, ◌<◌, ◌≡◌, sym, subst, ◌∙◌, ◌⊎◌, inl, inr, Bool, true, false, not, ◌||◌, length,
  Bytes, bytes_eq, bytes_eq_iff, arith, Bool-cases, Option-cases,
}
use envshare.Node.Maps.{Entry, get, contains_key, remove, insert, length-retain}
use envshare.Node.Store.{
  Limits, Registration, Key, Store, same_key, remove_registration, remove_from_cookies,
}
use envshare.Node.Discovery.{count_peer, count_namespace, is_full, store_registration, seconds}
use envshare.Node.Discovery.Counts.{
  Registrations, count_peer-retain, count_namespace-retain, remove_registration-Fewer,
}

-- The registrations and the rate entries are within the limits.
pub record IsBounded (config : Limits) (s : Store) : Type 0 where
  pub config_eq : s.config ≡ config
  pub total : length s.registrations ≤ config.total
  pub per_peer : (peer : Bytes) → count_peer peer s.registrations ≤ config.per_peer
  pub per_namespace :
      (namespace : Bytes) → count_namespace namespace s.registrations ≤ config.per_namespace
  pub rates : length s.rates ≤ config.rate_peers

-- A store with no more registrations, and the same limits and rate entries.
pub record Shrinks (s s' : Store) : Type 0 where
  pub config_eq : s'.config ≡ s.config
  pub total : length s'.registrations ≤ length s.registrations
  pub peers : (peer : Bytes) → count_peer peer s'.registrations ≤ count_peer peer s.registrations
  pub namespaces :
      (namespace : Bytes)
      → count_namespace namespace s'.registrations ≤ count_namespace namespace s.registrations
  pub rates : s'.rates ≡ s.rates

pub Shrinks-IsBounded :
    (config : Limits) (s s' : Store) → Shrinks s s' → IsBounded config s → IsBounded config s'
Shrinks-IsBounded config s s' r h = record {
  config_eq = r.config_eq ∙ h.config_eq;
  total = omega (arith, r.total, h.total);
  per_peer = λ peer. omega (arith, r.peers peer, h.per_peer peer);
  per_namespace = λ namespace. omega (arith, r.namespaces namespace, h.per_namespace namespace);
  rates = subst (λ x. length x ≤ config.rate_peers) (sym r.rates) h.rates;
}

remove_registration-keeps :
    (s : Store) (key : Key)
    → ((remove_registration s key).config ≡ s.config)
      × ((remove_registration s key).rates ≡ s.rates)
unfolding remove_registration remove_from_cookies
remove_registration-keeps s key = elim (Option-cases (get same_key key s.registrations)) [
  | inl n ↦ (ground (arith, n), ground (arith, n))
  | inr (previous, q) ↦ (ground (arith, q), ground (arith, q))
]

pub remove_registration-IsBounded :
    (config : Limits) (s : Store) (key : Key)
    → IsBounded config s
    → IsBounded config (remove_registration s key)
remove_registration-IsBounded config s key h =
    let fewer = remove_registration-Fewer s key in
    let (config_eq, rates_eq) = remove_registration-keeps s key in
    Shrinks-IsBounded config s (remove_registration s key)
      (record {
        config_eq = config_eq;
        total = fewer.total;
        peers = fewer.peers;
        namespaces = fewer.namespaces;
        rates = rates_eq;
      })
      h

-- One more registration of the key, where there was one or there is room.
count_peer-insert :
    (key : Key) (r : Registration) (m : Registrations) (peer : Bytes)
    → (count_peer peer (insert same_key key r m) ≤ count_peer peer m)
      ⊎ ((key.peer ≡ peer) × (count_peer peer (insert same_key key r m) ≤ count_peer peer m + 1))
unfolding count_peer insert remove
count_peer-insert key r m peer = elim (Bool-cases (bytes_eq key.peer peer)) [
  | inl t ↦ inr (
    (bytes_eq_iff key.peer peer).0 t,
    ground (arith, t, count_peer-retain peer (λ e. not (same_key key e.key)) m),
  )
  | inr f ↦ inl (ground (arith, f, count_peer-retain peer (λ e. not (same_key key e.key)) m))
]

count_namespace-insert :
    (key : Key) (r : Registration) (m : Registrations) (namespace : Bytes)
    → (count_namespace namespace (insert same_key key r m) ≤ count_namespace namespace m)
      ⊎ ((key.namespace ≡ namespace)
          × (count_namespace namespace (insert same_key key r m) ≤ count_namespace namespace m + 1))
unfolding count_namespace insert remove
count_namespace-insert key r m namespace = elim (Bool-cases (bytes_eq key.namespace namespace)) [
  | inl t ↦ inr (
    (bytes_eq_iff key.namespace namespace).0 t,
    ground (arith, t, count_namespace-retain namespace (λ e. not (same_key key e.key)) m),
  )
  | inr f ↦
      inl (ground (arith, f, count_namespace-retain namespace (λ e. not (same_key key e.key)) m))
]

-- After the old registration of the key is gone, there is room for one.
record HasRoom (config : Limits) (key : Key) (m : Registrations) : Type 0 where
  total : length m < config.total
  peer : count_peer key.peer m < config.per_peer
  namespace : count_namespace key.namespace m < config.per_namespace

abbrev Room : Store → Key → Limits → Type 0
Room s key config =
    (length s.registrations < config.total)
    × (count_peer key.peer s.registrations < config.per_peer)
    × (count_namespace key.namespace s.registrations < config.per_namespace)

not_full :
    (s : Store) (key : Key)
    → contains_key same_key key s.registrations ≡ false
    → (contains_key same_key key s.registrations || not (is_full s key)) ≡ true
    → Room s key s.config
unfolding is_full
not_full s key f k = ground arith

removed-HasRoom :
    (config : Limits) (s : Store) (key : Key)
    → IsBounded config s
    → (contains_key same_key key s.registrations || not (is_full s key)) ≡ true
    → HasRoom config key (remove_registration s key).registrations
removed-HasRoom config s key h k =
    let fewer = remove_registration-Fewer s key in
    elim fewer.replaced [
      | inr (t, p, n) ↦ record {
        total = omega (arith, t, h.total);
        peer = omega (arith, p, h.per_peer key.peer);
        namespace = omega (arith, n, h.per_namespace key.namespace);
      }
      | inl f ↦
          let (t, p, n) = subst (Room s key) h.config_eq (not_full s key f k) in
          record {
            total = omega (arith, t, fewer.total);
            peer = omega (arith, p, fewer.peers key.peer);
            namespace = omega (arith, n, fewer.namespaces key.namespace);
          }
    ]

pub store_registration-IsBounded :
    (config : Limits) (s : Store) (key : Key) (signed_record : Bytes) (ttl now : ℕ)
    → IsBounded config s
    → (contains_key same_key key s.registrations || not (is_full s key)) ≡ true
    → IsBounded config (store_registration s key signed_record ttl now)
unfolding store_registration insert remove
store_registration-IsBounded config s key signed_record ttl now h k =
    let rest = remove_registration s key in
    let h' = remove_registration-IsBounded config s key h in
    let room = removed-HasRoom config s key h k in
    let keep : Entry Key Registration → Bool = λ e. not (same_key key e.key) in
    let stored : Registration = record {
      id = rest.next_registration;
      signed_record = signed_record;
      ttl = ttl;
      expires_at = now + seconds ttl;
    } in
    record {
      config_eq = h'.config_eq;
      total = omega (arith, room.total, length-retain keep rest.registrations);
      per_peer = λ peer. elim (count_peer-insert key stored rest.registrations peer) [
        | inl le ↦ omega (arith, le, h'.per_peer peer)
        | inr (e, le) ↦
            omega (
              arith,
              le,
              subst (λ p. count_peer p rest.registrations < config.per_peer) e room.peer,
            )
      ];
      per_namespace = λ namespace.
          elim (count_namespace-insert key stored rest.registrations namespace) [
            | inl le ↦ omega (arith, le, h'.per_namespace namespace)
            | inr (e, le) ↦ omega (
              arith,
              le,
              subst (λ n. count_namespace n rest.registrations < config.per_namespace) e
                  room.namespace,
            )
          ];
      rates = h'.rates;
    }
