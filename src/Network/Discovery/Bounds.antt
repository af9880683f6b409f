-- ===== src/Network/Discovery/Bounds.antt =====
-- crates/network/src/discovery.rs: the candidates that the set takes, and how many.
use envshare.Prelude.{
  ◌≤◌, ◌<◌, ◌≡◌, ◌≢◌, refl, sym, subst, ◌⊎◌, inl, inr, true, false, not, ◌&&◌, some, List, [], ◌∷◌,
  ◌++◌, ◌==◌, length, length-append, take, All, All-append, Bytes, bytes_eq, bytes_eq_iff,
  bytes_eq_refl, arith, Bool-cases, Option-cases, some-inj, ok,
}
use envshare.Node.Maps.{Entry, Map, get, contains_key, remove, insert, All-retain, length-insert}
use envshare.Network.Multiaddr.{Multiaddrs}
use envshare.Network.Discovery.{
  DiscoveredPeer, DiscoveryNode, RouteCandidate, CandidatePolicy, CandidateSet, new,
  classify_protocols, classify_address, is_seen, is_full, push_route, add_address, insert_addresses,
  insert_peer,
}
use envshare.Network.Discovery.Allowed.{IsAllowed, classify_protocols-IsAllowed}

module _ (M : Multiaddrs) where
  -- A route of the peer that the policy allows.
  pub record IsRoute (policy : CandidatePolicy) (peer : Bytes) (c : RouteCandidate) : Type 0 where
    pub peer_eq : c.peer ≡ peer
    pub allowed : IsAllowed policy (M.iter c.address) c.kind

  -- The routes of an entry, within the limit of one peer.
  abbrev pub FitsRoutes : CandidatePolicy → Entry Bytes (List RouteCandidate) → Type 0
  FitsRoutes policy e =
      (length e.value ≤ policy.max_addresses_per_peer) × All (IsRoute policy e.key) e.value

  pub record IsBounded (policy : CandidatePolicy) (s : CandidateSet) : Type 0 where
    pub policy_eq : s.policy ≡ policy
    pub peers : length s.routes ≤ policy.max_peers
    pub entries : All (FitsRoutes policy) s.routes

  -- There is an entry of the peer, or room for one.
  abbrev HasRoom : CandidatePolicy → Bytes → Map Bytes (List RouteCandidate) → Type 0
  HasRoom policy peer routes =
      (contains_key bytes_eq peer routes ≡ true) ⊎ (length routes < policy.max_peers)

  FitsRoutes-get :
      (policy : CandidatePolicy) (peer : Bytes) (m : Map Bytes (List RouteCandidate))
      (routes : List RouteCandidate)
      → All (FitsRoutes policy) m
      → get bytes_eq peer m ≡ some routes
      → FitsRoutes policy (record { key = peer; value = routes })
  unfolding get
  FitsRoutes-get policy peer [] routes h e = cc
  FitsRoutes-get policy peer (entry ∷ m) routes (p, h) e =
      elim (Bool-cases (bytes_eq peer entry.key)) [
        | inl t ↦
            let value_eq : entry.value ≡ routes = some-inj (rw t at e) in
            let key_eq = (bytes_eq_iff peer entry.key).0 t in
            subst (λ v. FitsRoutes policy (record { key = peer; value = v })) value_eq
              (subst (λ k. FitsRoutes policy (record { key = k; value = entry.value })) (sym key_eq)
                p)
        | inr f ↦ FitsRoutes-get policy peer m routes h (rw f at e)
      ]

  contains_key-insert :
      (peer : Bytes) (routes : List RouteCandidate) (m : Map Bytes (List RouteCandidate))
      → contains_key bytes_eq peer (insert bytes_eq peer routes m) ≡ true
  unfolding contains_key insert
  contains_key-insert peer routes m = rw (bytes_eq_refl peer) refl

  insert-IsBounded :
      (policy : CandidatePolicy) (s : CandidateSet) (c : RouteCandidate)
      (routes : List RouteCandidate)
      → IsBounded policy s
      → HasRoom policy c.peer s.routes
      → FitsRoutes policy (record { key = c.peer; value = routes })
      → (seen : List DiscoveryNode)
      → IsBounded policy (record s { seen = seen; routes = insert bytes_eq c.peer routes s.routes })
  unfolding insert remove
  insert-IsBounded policy s c routes h room fits seen = record {
    policy_eq = h.policy_eq;
    peers = length-insert bytes_eq c.peer routes s.routes policy.max_peers h.peers room;
    entries = (
      fits,
      All-retain (FitsRoutes policy) (λ e. not (bytes_eq c.peer e.key)) s.routes h.entries,
    );
  }

  not_full :
      (policy : CandidatePolicy) (s : CandidateSet) (peer : Bytes) (routes : List RouteCandidate)
      → s.policy ≡ policy
      → is_full s peer ≡ false
      → get bytes_eq peer s.routes ≡ some routes
      → length routes ≢ policy.max_addresses_per_peer
  unfolding is_full
  not_full policy s peer routes e open_ q full = ground (arith, e, open_, q, full)

  push_route-IsBounded :
      (policy : CandidatePolicy) (s : CandidateSet) (c : RouteCandidate)
      → 0 < policy.max_addresses_per_peer
      → IsBounded policy s
      → HasRoom policy c.peer s.routes
      → is_full s c.peer ≡ false
      → IsRoute policy c.peer c
      → IsBounded policy (push_route s c)
  unfolding push_route is_full
  push_route-IsBounded policy s c positive h room open_ route =
      elim (Option-cases (get bytes_eq c.peer s.routes)) [
        | inl n ↦
            rw (n, push_route)
              (insert-IsBounded policy s c (c ∷ []) h room (omega arith, (route, tt)) _)
        | inr (routes, q) ↦
            let (le, all) = FitsRoutes-get policy c.peer s.routes routes h.entries q in
            let below : length routes ≢ policy.max_addresses_per_peer =
              not_full policy s c.peer routes h.policy_eq open_ q in
            rw (q, push_route)
              (insert-IsBounded policy s c (routes ++ c ∷ []) h room
                (
                  omega (arith, length-append routes (c ∷ []), le, below),
                  All-append (IsRoute policy c.peer) routes (c ∷ []) all (route, tt),
                )
                _)
      ]

  push_route_keyed :
      (s : CandidateSet) (c : RouteCandidate)
      → contains_key bytes_eq c.peer (push_route s c).routes ≡ true
  unfolding push_route
  push_route_keyed s c = contains_key-insert c.peer _ s.routes

  add_address_keeps :
      (policy : CandidatePolicy) (s : CandidateSet) (peer address : Bytes)
      → 0 < policy.max_addresses_per_peer
      → is_full s peer ≡ false
      → IsBounded policy s × HasRoom policy peer s.routes
      → IsBounded policy (add_address M s peer address)
        × HasRoom policy peer (add_address M s peer address).routes
  unfolding add_address classify_address
  add_address_keeps policy s peer address positive open_ (h, room) =
      elim (Option-cases (classify_address M address peer s.policy)) [
        | inl n ↦ rw (n, add_address) (h, room)
        | inr (kind, q) ↦
            let c : RouteCandidate = record { peer = peer; address = address; kind = kind } in
            let allowed =
              classify_protocols-IsAllowed (M.iter address) peer policy kind (
                subst (λ p. classify_protocols (M.iter address) peer p ≡ some kind) h.policy_eq
                  q) in
            elim (Bool-cases (is_seen (record { peer = peer; address = address }) s.seen)) [
              | inl t ↦ rw (q, add_address) (rw (t, add_address) (h, room))
              | inr f ↦
                  rw (q, add_address)
                    (rw (f, add_address)
                      (
                        push_route-IsBounded policy s c positive h room open_
                            (record { peer_eq = refl; allowed = allowed }),
                        inl (push_route_keyed s c),
                      ))
            ]
      ]

  insert_addresses-IsBounded :
      (policy : CandidatePolicy) (s : CandidateSet) (peer : Bytes) (addresses : List Bytes)
      → 0 < policy.max_addresses_per_peer
      → IsBounded policy s × HasRoom policy peer s.routes
      → IsBounded policy (insert_addresses M s peer addresses)
  unfolding insert_addresses
  insert_addresses-IsBounded policy s peer [] positive (h, room) = h
  insert_addresses-IsBounded policy s peer (address ∷ addresses) positive (h, room) =
      elim (Bool-cases (is_full s peer)) [
        | inl t ↦ rw t h
        | inr f ↦ rw f (
            insert_addresses-IsBounded policy (add_address M s peer address) peer addresses positive
              (add_address_keeps policy s peer address positive f (h, room)))
      ]

  has_room :
      (policy : CandidatePolicy) (s : CandidateSet) (peer : Bytes)
      → IsBounded policy s
      → (not (contains_key bytes_eq peer s.routes) && length s.routes == s.policy.max_peers) ≡ false
      → HasRoom policy peer s.routes
  has_room policy s peer h f = elim (Bool-cases (contains_key bytes_eq peer s.routes)) [
    | inl t ↦ inl t
    | inr n ↦ let le = h.peers in let same = h.policy_eq in inr (ground (arith, f, n, le, same))
  ]

  insert_peer-IsBounded :
      (policy : CandidatePolicy) (s : CandidateSet) (discovered : DiscoveredPeer)
      → 0 < policy.max_addresses_per_peer
      → IsBounded policy s
      → IsBounded policy (insert_peer M s discovered)
  unfolding insert_peer
  insert_peer-IsBounded policy s discovered positive h =
      let peer = discovered.peer in
      elim (Bool-cases
        (not (contains_key bytes_eq peer s.routes) && length s.routes == s.policy.max_peers)) [
          | inl t ↦ rw t h
          | inr f ↦ rw f (
              insert_addresses-IsBounded policy s peer
                (take s.policy.max_addresses_per_peer discovered.addresses) positive
                (h, has_room policy s peer h f))
        ]

  -- The records that nodes return, one after the other.
  unfoldable pub insert_all : CandidateSet → List DiscoveredPeer → CandidateSet
  insert_all s [] = s
  insert_all s (discovered ∷ rest) = insert_all (insert_peer M s discovered) rest

  insert_all-IsBounded :
      (policy : CandidatePolicy) (s : CandidateSet) (rest : List DiscoveredPeer)
      → 0 < policy.max_addresses_per_peer
      → IsBounded policy s
      → IsBounded policy (insert_all s rest)
  unfolding insert_all
  insert_all-IsBounded policy s [] positive h = h
  insert_all-IsBounded policy s (discovered ∷ rest) positive h =
      insert_all-IsBounded policy (insert_peer M s discovered) rest positive
        (insert_peer-IsBounded policy s discovered positive h)

  new-IsBounded :
      (policy : CandidatePolicy) (s : CandidateSet)
      → new policy ≡ ok s
      → (0 < policy.max_addresses_per_peer) × IsBounded policy s
  unfolding new
  new-IsBounded policy s h =
      let empty : CandidateSet = record { policy = policy; routes = []; seen = [] } in
      let s_eq : empty ≡ s = ground (arith, h) in
      (
        ground (arith, h),
        subst (IsBounded policy) s_eq
            (record { policy_eq = refl; peers = omega arith; entries = tt }),
      )

  pub inserted-IsBounded :
      (policy : CandidatePolicy) (s : CandidateSet) (rest : List DiscoveredPeer)
      → new policy ≡ ok s
      → IsBounded policy (insert_all s rest)
  inserted-IsBounded policy s rest h =
      let (positive, bounded) = new-IsBounded policy s h in
      insert_all-IsBounded policy s rest positive bounded
