-- ===== src/Node/Server/Consistency.antt =====
-- crates/node/src/relay.rs: what holds after any turns of the server's loop.
use envshare.Prelude.{
  ℕ, ◌≤◌, ◌≡◌, refl, sym, subst, ◌∙◌, inl, inr, Bool, false, Option, none, some, List, [], ◌∷◌,
  length, Bytes, arith, Bool-cases, All, true, ◌⊎◌,
}
use envshare.Node.Config.{NodeConfig, limits_of}
use envshare.Node.Store.{Store, Request}
use envshare.Node.Discovery.{PeerRecord, handle, expire}
use envshare.Node.Discovery.Bounds.{IsBounded}
use envshare.Node.Discovery.Calls.{Call, handling, expiring, calls, calls_keep}
use envshare.Node.Discovery.Requests.{bounded, new-IsBounded}
use envshare.Node.Status
use envshare.Node.Status.{NodeStatus}
use envshare.Node.Server.{
  NodeEvent, SwarmEvent, new_listen_addr, connection_established, connection_closed,
  listener_closed, reservation_req_accepted, reservation_req_denied, circuit_req_accepted,
  circuit_req_denied, relay_circuit_closed, relay_reservation_closed, reservation_timed_out,
  rendezvous_request, other_event, NodeServer, new, expire_peers, expire_discovery, is_unsent,
  insert_listener, remove_listener, handle_discovery_event, react, emit_some, handle_event, Turn,
  started, swarm_event, ticked, drain_began, stopped, received, tail, take_turn, run,
}
use envshare.Node.Server.Listeners.{
  contains, IsDistinct, AllIn, insert_listener-IsDistinct, remove_listener-IsDistinct,
  contains-full, All-contains,
}
use envshare.Node.Server.History.{is_bound, TurnIn, is_bound-within, run-is_bound}
use envshare.Node.Server.Health.{
  IsConsistent, with_status, with_events, emit-IsConsistent, with_store, gauge-IsConsistent,
  with_listeners-IsConsistent, emit_unregistered-IsConsistent,
}

module _ (signed_record_of : Bytes → Option PeerRecord) where
  called :
      (config : NodeConfig) (s : Store) (call : Call signed_record_of)
      → IsBounded (limits_of config) s
      → IsBounded (limits_of config) (calls signed_record_of s (call ∷ []))
  called config s call h =
      calls_keep signed_record_of (IsBounded (limits_of config))
        (bounded signed_record_of (limits_of config)) s (call ∷ []) h

  expire-IsBounded :
      (config : NodeConfig) (s : Store) (now : ℕ)
      → IsBounded (limits_of config) s
      → IsBounded (limits_of config) (expire s now).1
  unfolding calls
  expire-IsBounded config s now h = called config s (expiring now) h

  handle-IsBounded :
      (config : NodeConfig) (s : Store) (peer : Bytes) (request : Request) (now : ℕ)
      → IsBounded (limits_of config) s
      → IsBounded (limits_of config) (handle signed_record_of s peer request now).1
  unfolding calls
  handle-IsBounded config s peer request now h = called config s (handling peer request now) h

  expire_peers-IsConsistent :
      (config : NodeConfig) (s : NodeServer) (now : ℕ)
      → IsConsistent config s
      → IsConsistent config (expire_peers s now)
  unfolding expire_peers
  expire_peers-IsConsistent config s now h =
      let (peers, discovery) = expire s.discovery now in
      emit_unregistered-IsConsistent config (record s { discovery = discovery }) peers
        (with_store config s discovery (expire-IsBounded config s.discovery now h.store) h)

  handle_discovery_event-IsConsistent :
      (config : NodeConfig) (s : NodeServer) (peer : Bytes) (request : Request) (sent : Bool)
      (now : ℕ)
      → IsConsistent config s
      → IsConsistent config (handle_discovery_event signed_record_of s peer request sent now).1
  unfolding handle_discovery_event Status.discovery_request
  handle_discovery_event-IsConsistent config s peer request sent now h =
      let counted = record s { status = Status.discovery_request s.status } in
      let s1 = expire_peers counted now in
      let h1 = expire_peers-IsConsistent config counted now (
        with_status config s (Status.discovery_request s.status)
          (record { ready_eq = refl; expected_eq = refl; bound_eq = refl; gauge_eq = refl }) h) in
      let (handled, discovery) = handle signed_record_of s1.discovery peer request now in
      let h2 =
        with_store config s1 discovery
          (handle-IsBounded config s1.discovery peer request now h1.store) h1 in
      elim (Bool-cases (is_unsent handled.response sent)) [
        | inl t ↦ rw t h2
        | inr f ↦ rw f (gauge-IsConsistent config (record s1 { discovery = discovery }) h2)
      ]

  react-IsConsistent :
      (config : NodeConfig) (s : NodeServer) (event : SwarmEvent) (now : ℕ)
      → IsConsistent config s
      → IsConsistent config (react signed_record_of s event now).1
  unfolding react Status.connection_opened Status.connection_closed
  react-IsConsistent config s (new_listen_addr listener address) now h =
      with_listeners-IsConsistent config
        (record s { external_addresses = address ∷ s.external_addresses })
        (insert_listener listener s.ready_listeners)
        (insert_listener-IsDistinct listener s.ready_listeners h.distinct)
        (record {
          store = h.store;
          gauge_le = h.gauge_le;
          capacity = h.capacity;
          queue = h.queue;
          expected = h.expected;
          bound = h.bound;
          distinct = h.distinct;
          ready = h.ready;
        })
  react-IsConsistent config s connection_established now h =
      with_status config s (Status.connection_opened s.status)
        (record { ready_eq = refl; expected_eq = refl; bound_eq = refl; gauge_eq = refl }) h
  react-IsConsistent config s connection_closed now h =
      with_status config s (Status.connection_closed s.status)
        (record { ready_eq = refl; expected_eq = refl; bound_eq = refl; gauge_eq = refl }) h
  react-IsConsistent config s (listener_closed listener) now h =
      with_listeners-IsConsistent config s (remove_listener listener s.ready_listeners)
        (remove_listener-IsDistinct listener s.ready_listeners h.distinct) h
  react-IsConsistent config s (reservation_req_accepted peer renewed) now h = h
  react-IsConsistent config s (reservation_req_denied peer) now h = h
  react-IsConsistent config s (circuit_req_accepted source destination) now h = h
  react-IsConsistent config s (circuit_req_denied source destination) now h = h
  react-IsConsistent config s (relay_circuit_closed source destination) now h = h
  react-IsConsistent config s (relay_reservation_closed peer) now h = h
  react-IsConsistent config s (reservation_timed_out peer) now h = h
  react-IsConsistent config s (rendezvous_request peer request sent) now h =
      handle_discovery_event-IsConsistent config s peer request sent now h
  react-IsConsistent config s other_event now h = h

  emit_some-IsConsistent :
      (config : NodeConfig) (event : Option NodeEvent) (s : NodeServer)
      → IsConsistent config s
      → IsConsistent config (emit_some (event, s))
  emit_some-IsConsistent config none s h = h
  emit_some-IsConsistent config (some event) s h = emit-IsConsistent config s event h

  touched :
      (config : NodeConfig) (s : NodeServer) (elapsed : ℕ)
      → IsConsistent config s
      → IsConsistent config (record s { status = Status.touch s.status elapsed })
  unfolding Status.touch
  touched config s elapsed h =
      with_status config s (Status.touch s.status elapsed)
        (record { ready_eq = refl; expected_eq = refl; bound_eq = refl; gauge_eq = refl }) h

  not_ready :
      (config : NodeConfig) (s : NodeServer) (t : NodeStatus)
      → t.ready ≡ false
      → t.listeners_expected ≡ s.status.listeners_expected
      → t.listeners_ready ≡ s.status.listeners_ready
      → t.discovery_registrations ≡ s.status.discovery_registrations
      → IsConsistent config s
      → IsConsistent config (record s { status = t })
  not_ready config s t r e b g h = record {
    store = h.store;
    gauge_le = subst (λ n. n ≤ config.discovery_registrations_total) (sym g) h.gauge_le;
    capacity = h.capacity;
    queue = h.queue;
    expected = e ∙ h.expected;
    bound = b ∙ h.bound;
    distinct = h.distinct;
    ready = inl r;
  }

  length-tail : (events : List NodeEvent) → length (tail events) ≤ length events
  length-tail [] = omega arith
  length-tail (event ∷ events) = omega arith

  take_turn-IsConsistent :
      (config : NodeConfig) (s : NodeServer) (turn : Turn)
      → IsConsistent config s
      → IsConsistent config (take_turn signed_record_of s turn)
  unfolding take_turn handle_event expire_discovery Status.start Status.touch Status.begin_drain
      Status.stop
  take_turn-IsConsistent config s (started elapsed) h =
      with_status config s (Status.start s.status elapsed)
        (record { ready_eq = refl; expected_eq = refl; bound_eq = refl; gauge_eq = refl }) h
  take_turn-IsConsistent config s (swarm_event event now elapsed) h =
      let s' = record s { status = Status.touch s.status elapsed } in
      let (reaction, s'') = react signed_record_of s' event now in
      emit_some-IsConsistent config reaction s''
        (react-IsConsistent config s' event now (touched config s elapsed h))
  take_turn-IsConsistent config s (ticked now elapsed) h =
      let s' = record s { status = Status.touch s.status elapsed } in
      gauge-IsConsistent config (expire_peers s' now)
        (expire_peers-IsConsistent config s' now (touched config s elapsed h))
  take_turn-IsConsistent config s drain_began h =
      not_ready config s (Status.begin_drain s.status) refl refl refl refl h
  take_turn-IsConsistent config s stopped h =
      not_ready config s (Status.stop s.status) refl refl refl refl h
  take_turn-IsConsistent config s received h =
      with_events config s (tail s.events) (omega (arith, length-tail s.events, h.queue)) h

  run-keeps :
      (config : NodeConfig) (s : NodeServer) (turns : List Turn)
      → IsConsistent config s
      → IsConsistent config (run signed_record_of s turns)
  unfolding run
  run-keeps config s [] h = h
  run-keeps config s (turn ∷ turns) h =
      run-keeps config (take_turn signed_record_of s turn) turns
        (take_turn-IsConsistent config s turn h)

  new_server-IsConsistent : (config : NodeConfig) → IsConsistent config (new config)
  unfolding IsDistinct new Status.configure_capacities Status.expect_listeners
  new_server-IsConsistent config = record {
    store = new-IsBounded (limits_of config);
    gauge_le = omega arith;
    capacity = refl;
    queue = omega arith;
    expected = refl;
    bound = refl;
    distinct = tt;
    ready = inl refl;
  }

  -- The listeners that the turns have bound are among those that they name.
  run-AllIn :
      (config : NodeConfig) (listeners : List ℕ) (turns : List Turn)
      → All (TurnIn listeners) turns
      → AllIn (run signed_record_of (new config) turns).ready_listeners listeners
  unfolding new contains
  run-AllIn config listeners turns named l e =
      is_bound-within listeners l false turns named (λ f. cc)
        (sym (run-is_bound signed_record_of l (new config) turns) ∙ e)

  -- Over any turns of a server made for a configuration, with one listener for each configured
  -- address, where new addresses are announced only of these listeners: its store keeps the
  -- configured limits, the gauge of registrations and the queue of events stay within theirs, its
  -- set holds exactly the listeners that were bound by an event and not closed since, and while it
  -- is ready, all of its listeners are bound so.
  pub run-IsConsistent :
      (config : NodeConfig) (listeners : List ℕ) (turns : List Turn)
      → length listeners ≡ length config.listen_addresses
      → All (TurnIn listeners) turns
      → IsConsistent config (run signed_record_of (new config) turns)
        × ((l : ℕ)
            → contains l (run signed_record_of (new config) turns).ready_listeners
              ≡ is_bound l false turns)
        × (((run signed_record_of (new config) turns).status.ready ≡ false)
            ⊎ All (λ l. is_bound l false turns ≡ true) listeners)
  unfolding new contains
  run-IsConsistent config listeners turns as_many named =
      let s = run signed_record_of (new config) turns in
      let h = run-keeps config (new config) turns (new_server-IsConsistent config) in
      let history : (l : ℕ) → contains l s.ready_listeners ≡ is_bound l false turns =
        λ l. run-is_bound signed_record_of l (new config) turns in
      (
        h,
        history,
        elim h.ready [
          | inl off ↦ inl off
          | inr (some_expected, enough) ↦ inr (
              All-contains (λ l. is_bound l false turns ≡ true) listeners
                (λ l k.
                  sym (history l)
                  ∙ contains-full s.ready_listeners listeners l h.distinct
                      (run-AllIn config listeners turns named) (omega (arith, as_many, enough)) k))
        ],
      )
