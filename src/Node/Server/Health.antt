-- ===== src/Node/Server/Health.antt =====
-- crates/node/src/relay.rs: what the server's emissions, gauge and listeners leave consistent.
use envshare.Prelude.{
  ℕ, ◌≤◌, ◌<◌, ◌≡◌, refl, sym, subst, ◌∙◌, inl, inr, true, false, ◌&&◌, List, [], ◌∷◌, ◌++◌, leb,
  ltb, ltb→lt, length, length-append, Bytes, arith, Bool-cases, ◌⊎◌,
}
use envshare.Node.Config.{NodeConfig, limits_of}
use envshare.Node.Store.{Store}
use envshare.Node.Discovery.Bounds.{IsBounded}
use envshare.Node.Status
use envshare.Node.Status.{NodeStatus}
use envshare.Node.Server.Listeners.{IsDistinct}
use envshare.Node.Server.{
  NodeEvent, listening, reservation_accepted, circuit_accepted, circuit_closed, reservation_closed,
  reservation_denied, circuit_denied, discovery_registered, discovery_unregistered,
  discovery_served, discovery_rejected, NodeServer, count_event, emit, emit_unregistered, gauge,
  with_listeners,
}

-- There are listeners to bind, and as many are bound.
abbrev AllBound : NodeConfig → List ℕ → Type 0
AllBound config listeners =
    (0 < length config.listen_addresses) × (length config.listen_addresses ≤ length listeners)

-- The store, the gauge and the queue are within the limits, and the server is ready only with all
-- the configured listeners.
pub record IsConsistent (config : NodeConfig) (s : NodeServer) : Type 0 where
  pub store : IsBounded (limits_of config) s.discovery
  pub gauge_le : s.status.discovery_registrations ≤ config.discovery_registrations_total
  pub capacity : s.event_capacity ≡ config.event_capacity
  pub queue : length s.events ≤ config.event_capacity
  pub expected : s.status.listeners_expected ≡ length config.listen_addresses
  pub bound : s.status.listeners_ready ≡ length s.ready_listeners
  pub distinct : IsDistinct s.ready_listeners
  pub ready : (s.status.ready ≡ false) ⊎ AllBound config s.ready_listeners

-- The two have the same health and gauge.
pub record SameHealth (t t' : NodeStatus) : Type 0 where
  pub ready_eq : t'.ready ≡ t.ready
  pub expected_eq : t'.listeners_expected ≡ t.listeners_expected
  pub bound_eq : t'.listeners_ready ≡ t.listeners_ready
  pub gauge_eq : t'.discovery_registrations ≡ t.discovery_registrations

SameHealth-refl : (t : NodeStatus) → SameHealth t t
SameHealth-refl t = record { ready_eq = refl; expected_eq = refl; bound_eq = refl; gauge_eq = refl }

count_event-SameHealth : (t : NodeStatus) (event : NodeEvent) → SameHealth t (count_event t event)
unfolding count_event Status.reservation_accepted Status.reservation_closed
    Status.reservation_denied Status.circuit_accepted Status.circuit_closed Status.circuit_denied
    Status.discovery_rejected
count_event-SameHealth t (listening a) = SameHealth-refl t
count_event-SameHealth t (reservation_accepted p r) = record {
  ready_eq = refl;
  expected_eq = refl;
  bound_eq = refl;
  gauge_eq = refl;
}
count_event-SameHealth t (circuit_accepted a b) = record {
  ready_eq = refl;
  expected_eq = refl;
  bound_eq = refl;
  gauge_eq = refl;
}
count_event-SameHealth t (circuit_closed a b) = record {
  ready_eq = refl;
  expected_eq = refl;
  bound_eq = refl;
  gauge_eq = refl;
}
count_event-SameHealth t (reservation_closed p) = record {
  ready_eq = refl;
  expected_eq = refl;
  bound_eq = refl;
  gauge_eq = refl;
}
count_event-SameHealth t (reservation_denied p) = record {
  ready_eq = refl;
  expected_eq = refl;
  bound_eq = refl;
  gauge_eq = refl;
}
count_event-SameHealth t (circuit_denied a b) = record {
  ready_eq = refl;
  expected_eq = refl;
  bound_eq = refl;
  gauge_eq = refl;
}
count_event-SameHealth t (discovery_registered p) = SameHealth-refl t
count_event-SameHealth t (discovery_unregistered p) = SameHealth-refl t
count_event-SameHealth t (discovery_served p n) = SameHealth-refl t
count_event-SameHealth t (discovery_rejected p) = record {
  ready_eq = refl;
  expected_eq = refl;
  bound_eq = refl;
  gauge_eq = refl;
}

pub with_status :
    (config : NodeConfig) (s : NodeServer) (t : NodeStatus)
    → SameHealth s.status t
    → IsConsistent config s
    → IsConsistent config (record s { status = t })
with_status config s t same h = record {
  store = h.store;
  gauge_le = subst (λ n. n ≤ config.discovery_registrations_total) (sym same.gauge_eq) h.gauge_le;
  capacity = h.capacity;
  queue = h.queue;
  expected = same.expected_eq ∙ h.expected;
  bound = same.bound_eq ∙ h.bound;
  distinct = h.distinct;
  ready = subst (λ b. (b ≡ false) ⊎ AllBound config s.ready_listeners) (sym same.ready_eq) h.ready;
}

pub with_events :
    (config : NodeConfig) (s : NodeServer) (events : List NodeEvent)
    → length events ≤ config.event_capacity
    → IsConsistent config s
    → IsConsistent config (record s { events = events })
with_events config s events le h = record {
  store = h.store;
  gauge_le = h.gauge_le;
  capacity = h.capacity;
  queue = le;
  expected = h.expected;
  bound = h.bound;
  distinct = h.distinct;
  ready = h.ready;
}

dropped : (t : NodeStatus) → SameHealth t (Status.event_dropped t)
unfolding Status.event_dropped
dropped t = record { ready_eq = refl; expected_eq = refl; bound_eq = refl; gauge_eq = refl }

pub emit-IsConsistent :
    (config : NodeConfig) (s : NodeServer) (event : NodeEvent)
    → IsConsistent config s
    → IsConsistent config (emit s event)
unfolding emit
emit-IsConsistent config s event h =
    let status = count_event s.status event in
    let counted = with_status config s status (count_event-SameHealth s.status event) h in
    elim (Bool-cases (ltb (length s.events) s.event_capacity)) [
      | inl t ↦
          let room = ltb→lt (length s.events) s.event_capacity t in
          rw t (
            with_events config (record s { status = status }) (s.events ++ event ∷ [])
              (omega (arith, length-append s.events (event ∷ []), h.capacity, room)) counted)
      | inr f ↦ rw f (
          with_status config (record s { status = status }) (Status.event_dropped status)
            (dropped status) counted)
    ]

pub with_store :
    (config : NodeConfig) (s : NodeServer) (discovery : Store)
    → IsBounded (limits_of config) discovery
    → IsConsistent config s
    → IsConsistent config (record s { discovery = discovery })
with_store config s discovery b h = record {
  store = b;
  gauge_le = h.gauge_le;
  capacity = h.capacity;
  queue = h.queue;
  expected = h.expected;
  bound = h.bound;
  distinct = h.distinct;
  ready = h.ready;
}

pub gauge-IsConsistent :
    (config : NodeConfig) (s : NodeServer) → IsConsistent config s → IsConsistent config (gauge s)
unfolding gauge Status.set_discovery_registrations limits_of
gauge-IsConsistent config s h = record {
  store = h.store;
  gauge_le = h.store.total;
  capacity = h.capacity;
  queue = h.queue;
  expected = h.expected;
  bound = h.bound;
  distinct = h.distinct;
  ready = h.ready;
}

all_bound :
    (config : NodeConfig) (s : NodeServer) (listeners : List ℕ)
    → s.status.listeners_expected ≡ length config.listen_addresses
    → (ltb 0 s.status.listeners_expected && leb s.status.listeners_expected (length listeners))
      ≡ true
    → AllBound config listeners
all_bound config s listeners e h = (ground (arith, e, h), ground (arith, e, h))

pub with_listeners-IsConsistent :
    (config : NodeConfig) (s : NodeServer) (listeners : List ℕ)
    → IsDistinct listeners
    → IsConsistent config s
    → IsConsistent config (with_listeners s listeners)
unfolding with_listeners Status.listeners_ready
with_listeners-IsConsistent config s listeners distinct h = record {
  store = h.store;
  gauge_le = h.gauge_le;
  capacity = h.capacity;
  queue = h.queue;
  expected = h.expected;
  bound = refl;
  distinct = distinct;
  ready =
      elim (Bool-cases
        (ltb 0 s.status.listeners_expected && leb s.status.listeners_expected (length listeners))) [
          | inl t ↦ inr (all_bound config s listeners h.expected t)
          | inr f ↦ inl f
        ];
}

pub emit_unregistered-IsConsistent :
    (config : NodeConfig) (s : NodeServer) (peers : List Bytes)
    → IsConsistent config s
    → IsConsistent config (emit_unregistered s peers)
unfolding emit_unregistered
emit_unregistered-IsConsistent config s [] h = h
emit_unregistered-IsConsistent config s (peer ∷ peers) h =
    emit_unregistered-IsConsistent config (emit s (discovery_unregistered peer)) peers
      (emit-IsConsistent config s (discovery_unregistered peer) h)
