-- ===== src/Network/Discovery/Dialing.antt =====
-- crates/network/src/discovery.rs: the ranked candidates of what nodes return.
use envshare.Prelude.{
  ℕ, suc, ◌+◌, ◌*◌, ◌≤◌, ◌≡◌, inl, inr, List, [], ◌∷◌, length, length-append, All, All-append,
  Bytes, arith, ok,
}
use envshare.Node.Maps.{Map}
use envshare.Network.Multiaddr.{Multiaddrs}
use envshare.Network.Discovery.{
  DiscoveredPeer, RouteCandidate, CandidatePolicy, CandidateSet, new, drain, compare_routes,
  insert_route, sort_routes, into_ranked,
}
use envshare.Network.Discovery.Allowed.{IsAllowed}
use envshare.Network.Discovery.Bounds.{IsRoute, FitsRoutes, insert_all, inserted-IsBounded}
use envshare.Network.Discovery.Ranking.{Ordering-cases}

module _ (M : Multiaddrs) where
  -- The policy allows the address as a route of this kind.
  abbrev pub MayDial : CandidatePolicy → RouteCandidate → Type 0
  MayDial policy c = IsAllowed policy (M.iter c.address) c.kind

  All-insert_route :
      (P : RouteCandidate → Type 0) (c : RouteCandidate) (routes : List RouteCandidate)
      → P c
      → All P routes
      → All P (insert_route M c routes)
  unfolding insert_route
  All-insert_route P c [] p h = (p, tt)
  All-insert_route P c (d ∷ routes) p (q, h) = elim (Ordering-cases (compare_routes M c d)) [
    | inl late ↦ rw (late, insert_route) (q, All-insert_route P c routes p h)
    | inr (inl e) ↦ rw (e, insert_route) (p, (q, h))
    | inr (inr e) ↦ rw (e, insert_route) (p, (q, h))
  ]

  length-insert_route :
      (c : RouteCandidate) (routes : List RouteCandidate)
      → length (insert_route M c routes) ≡ suc (length routes)
  unfolding insert_route
  length-insert_route c [] = omega arith
  length-insert_route c (d ∷ routes) = elim (Ordering-cases (compare_routes M c d)) [
    | inl late ↦ rw (late, insert_route) (omega (arith, length-insert_route c routes))
    | inr (inl e) ↦ rw (e, insert_route) (omega arith)
    | inr (inr e) ↦ rw (e, insert_route) (omega arith)
  ]

  All-sort_routes :
      (P : RouteCandidate → Type 0) (routes : List RouteCandidate)
      → All P routes
      → All P (sort_routes M routes)
  unfolding sort_routes
  All-sort_routes P [] h = tt
  All-sort_routes P (c ∷ routes) (p, h) =
      All-insert_route P c (sort_routes M routes) p (All-sort_routes P routes h)

  length-sort_routes :
      (routes : List RouteCandidate) → length (sort_routes M routes) ≡ length routes
  unfolding sort_routes
  length-sort_routes [] = omega arith
  length-sort_routes (c ∷ routes) =
      omega (arith, length-insert_route c (sort_routes M routes), length-sort_routes routes)

  All-MayDial :
      (policy : CandidatePolicy) (peer : Bytes) (routes : List RouteCandidate)
      → All (IsRoute M policy peer) routes
      → All (MayDial policy) routes
  All-MayDial policy peer [] h = tt
  All-MayDial policy peer (c ∷ routes) (p, h) = (p.allowed, All-MayDial policy peer routes h)

  drain-MayDial :
      (policy : CandidatePolicy) (m : Map Bytes (List RouteCandidate))
      → All (FitsRoutes M policy) m
      → All (MayDial policy) (drain m)
  unfolding drain
  drain-MayDial policy [] h = tt
  drain-MayDial policy (e ∷ m) (p, h) =
      All-append (MayDial policy) e.value (drain m) (All-MayDial policy e.key e.value p.1)
        (drain-MayDial policy m h)

  entry_mul : (n k : ℕ) → suc n * k ≡ k + n * k
  entry_mul n k = grind arith

  length-drain :
      (policy : CandidatePolicy) (m : Map Bytes (List RouteCandidate))
      → All (FitsRoutes M policy) m
      → length (drain m) ≤ length m * policy.max_addresses_per_peer
  unfolding drain
  length-drain policy [] h = omega arith
  length-drain policy (e ∷ m) (p, h) = omega (
    arith,
    length-append e.value (drain m),
    p.0,
    length-drain policy m h,
    entry_mul (length m) policy.max_addresses_per_peer,
  )

  mul_mono : (m n k : ℕ) → m ≤ n → m * k ≤ n * k
  mul_mono m n k h = grind arith

  -- Every route that comes out of a candidate set that `new` made, after any records were inserted,
  -- has an address that the policy allows as a route of its kind, and there are at most `max_peers`
  -- times `max_addresses_per_peer` of them.
  pub into_ranked-MayDial :
      (policy : CandidatePolicy) (s : CandidateSet) (discovered : List DiscoveredPeer)
      → new policy ≡ ok s
      → All (MayDial policy) (into_ranked M (insert_all M s discovered))
        × (length (into_ranked M (insert_all M s discovered))
            ≤ policy.max_peers * policy.max_addresses_per_peer)
  unfolding into_ranked
  into_ranked-MayDial policy s discovered h =
      let t = insert_all M s discovered in
      let bounded = inserted-IsBounded M policy s discovered h in
      (
        All-sort_routes (MayDial policy) (drain t.routes)
            (drain-MayDial policy t.routes bounded.entries),
        omega (
          arith,
          length-sort_routes (drain t.routes),
          length-drain policy t.routes bounded.entries,
          bounded.peers,
          mul_mono (length t.routes) policy.max_peers policy.max_addresses_per_peer bounded.peers,
        ),
      )
