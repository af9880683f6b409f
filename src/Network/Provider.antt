-- ===== src/Network/Provider.antt =====
-- crates/network/src/discovery.rs: the requests that the dispatchers and `maintain_registrations` make
-- of a `DiscoveryProvider`, in the order in which they start them. What the provider answers is passed
-- back by the first two and ignored by the others.
pub mod Renewal
use envshare.Prelude.{
  ℕ, suc, ◌+◌, ◌-◌, ◌*◌, ◌/◌, ◌^◌, ◌≤◌, ◌<◌, ◌≡◌, refl, ap, min, max, Bool, true, false, ◌||◌, List,
  [], ◌∷◌, ◌++◌, map, append_assoc, ltb, ◌==◌, if◌then◌else◌, length, length-append, length-map,
  length-take, take, replicate, Bytes, arith,
}
use envshare.Network.Discovery.{DiscoveryNode}

pub data Action : Type 0 where
  registering : (node node_address namespace : Bytes) (ttl_seconds : ℕ) → Action
  discovering : (node node_address namespace : Bytes) → Action
  unregistering : (node namespace : Bytes) → Action

-- One request for each of the first eight nodes, unless the parallelism is out of range.
unfoldable pub dispatch : (DiscoveryNode → Action) → List DiscoveryNode → ℕ → List Action
dispatch request nodes max_parallel =
    if max_parallel == 0 || ltb 8 max_parallel then [] else map request (take 8 nodes)

unfoldable pub dispatch_registration : List DiscoveryNode → Bytes → ℕ → ℕ → List Action
unfolding dispatch
dispatch_registration nodes namespace ttl_seconds =
    dispatch (λ node. registering node.peer node.address namespace ttl_seconds) nodes

unfoldable dispatch_discovery : List DiscoveryNode → Bytes → ℕ → List Action
unfolding dispatch
dispatch_discovery nodes namespace =
    dispatch (λ node. discovering node.peer node.address namespace) nodes

unfoldable pub dispatch_unregistration : List DiscoveryNode → Bytes → ℕ → List Action
unfolding dispatch
dispatch_unregistration nodes namespace = dispatch (λ node. unregistering node.peer namespace) nodes

-- How the `select!` at the end of a round was left.
pub data Wake : Type 0 where
  slept cancelled : Wake

-- The rounds of `maintain_registrations`, as far as the wakes go, and whether it has returned.
pub maintain_registrations : List DiscoveryNode → Bytes → ℕ → ℕ → List Wake → List Action × Bool
maintain_registrations nodes namespace ttl_seconds max_parallel [] =
    (dispatch_registration nodes namespace ttl_seconds max_parallel, false)
maintain_registrations nodes namespace ttl_seconds max_parallel (cancelled ∷ wakes) = (
  dispatch_registration nodes namespace ttl_seconds max_parallel
      ++ dispatch_unregistration nodes namespace max_parallel,
  true,
)
maintain_registrations nodes namespace ttl_seconds max_parallel (slept ∷ wakes) =
    let (later, done) = maintain_registrations nodes namespace ttl_seconds max_parallel wakes in
    (dispatch_registration nodes namespace ttl_seconds max_parallel ++ later, done)

-- In seconds; the product saturates, and the division cannot fail.
unfoldable pub renewal_delay : ℕ → ℕ
renewal_delay ttl_seconds = max (min (ttl_seconds * 2) (2 ^ 64 - 1) / 3) 1

-- So many rounds of registrations, then what comes after.
abbrev pub rounds : ℕ → List Action → List Action → List Action
rounds ℕ.zero round last = last
rounds (suc n) round last = round ++ rounds n round last

-- If `maintain_registrations` is cancelled after some number of renewals, it returns after one more
-- round of registrations than that, followed by one round of unregistrations, and looks at no later
-- event.
pub maintain_registrations_cancelled :
    (nodes : List DiscoveryNode) (namespace : Bytes) (ttl_seconds max_parallel renewals : ℕ)
    (wakes : List Wake)
    → maintain_registrations nodes namespace ttl_seconds max_parallel
        (replicate renewals slept ++ cancelled ∷ wakes)
      ≡ (
        rounds
            (suc renewals)
            (dispatch_registration nodes namespace ttl_seconds max_parallel)
            (dispatch_unregistration nodes namespace max_parallel),
        true,
      )
unfolding maintain_registrations
maintain_registrations_cancelled nodes namespace ttl max_parallel ℕ.zero wakes = refl
maintain_registrations_cancelled nodes namespace ttl max_parallel (suc n) wakes =
    ap (λ r. (dispatch_registration nodes namespace ttl max_parallel ++ r.0, r.1))
      (maintain_registrations_cancelled nodes namespace ttl max_parallel n wakes)
