-- ===== src/Node/Server/History.antt =====
-- crates/node/src/relay.rs: which listeners the events of the swarm have bound.
use envshare.Prelude.{
  ℕ, ◌≡◌, refl, ap, ◌∙◌, inl, inr, Bool, true, not, ◌&&◌, ◌||◌, Option, none, some, List, [], ◌∷◌,
  ◌==◌, All, Bytes, arith, Bool-cases, subst, ==_iff,
}
use envshare.Node.Store.{Request}
use envshare.Node.Discovery.{PeerRecord, handle, expire}
use envshare.Node.Status
use envshare.Node.Server.{
  NodeEvent, SwarmEvent, new_listen_addr, connection_established, connection_closed,
  listener_closed, reservation_req_accepted, reservation_req_denied, circuit_req_accepted,
  circuit_req_denied, relay_circuit_closed, relay_reservation_closed, reservation_timed_out,
  rendezvous_request, other_event, NodeServer, discovery_unregistered, emit, emit_unregistered,
  expire_peers, expire_discovery, gauge, is_unsent, with_listeners, handle_discovery_event, react,
  emit_some, handle_event, Turn, started, swarm_event, ticked, drain_began, stopped, received,
  take_turn, run,
}
use envshare.Node.Server.Listeners.{contains, contains-insert_listener, contains-remove_listener}

-- Whether a listener is bound after an event, when it was so before or not.
pub heard : ℕ → Bool → SwarmEvent → Bool
heard l before (new_listen_addr listener address) = (listener == l) || before
heard l before (listener_closed listener) = not (listener == l) && before
heard l before _ = before

pub heard_turn : ℕ → Bool → Turn → Bool
heard_turn l before (swarm_event event now elapsed) = heard l before event
heard_turn l before _ = before

-- Whether a listener is bound after some turns: the last event on it tells.
unfoldable pub is_bound : ℕ → Bool → List Turn → Bool
is_bound l before [] = before
is_bound l before (turn ∷ turns) = is_bound l (heard_turn l before turn) turns

-- An event of a new address is on one of the listeners.
unfoldable pub NamesIn : List ℕ → SwarmEvent → Type 0
NamesIn listeners (new_listen_addr listener address) = contains listener listeners ≡ true
NamesIn listeners _ = Unit {0}

unfoldable pub TurnIn : List ℕ → Turn → Type 0
TurnIn listeners (swarm_event event now elapsed) = NamesIn listeners event
TurnIn listeners _ = Unit {0}

heard-within :
    (listeners : List ℕ) (l : ℕ) (before : Bool) (event : SwarmEvent)
    → NamesIn listeners event
    → (before ≡ true → contains l listeners ≡ true)
    → heard l before event ≡ true
    → contains l listeners ≡ true
unfolding heard NamesIn
heard-within listeners l before (new_listen_addr listener a) p start e =
    elim (Bool-cases (listener == l)) [
      | inl t ↦ subst (λ y. contains y listeners ≡ true) ((==_iff listener l).0 t) p
      | inr f ↦ start (ground (arith, f, e))
    ]
heard-within listeners l before (listener_closed listener) p start e = start (ground (arith, e))
heard-within listeners l before connection_established p start e = start e
heard-within listeners l before connection_closed p start e = start e
heard-within listeners l before (reservation_req_accepted a b) p start e = start e
heard-within listeners l before (reservation_req_denied a) p start e = start e
heard-within listeners l before (circuit_req_accepted a b) p start e = start e
heard-within listeners l before (circuit_req_denied a b) p start e = start e
heard-within listeners l before (relay_circuit_closed a b) p start e = start e
heard-within listeners l before (relay_reservation_closed a) p start e = start e
heard-within listeners l before (reservation_timed_out a) p start e = start e
heard-within listeners l before (rendezvous_request a b c) p start e = start e
heard-within listeners l before other_event p start e = start e

heard_turn-within :
    (listeners : List ℕ) (l : ℕ) (before : Bool) (turn : Turn)
    → TurnIn listeners turn
    → (before ≡ true → contains l listeners ≡ true)
    → heard_turn l before turn ≡ true
    → contains l listeners ≡ true
unfolding heard_turn TurnIn
heard_turn-within listeners l before (swarm_event event now elapsed) p start e =
    heard-within listeners l before event p start e
heard_turn-within listeners l before (started a) p start e = start e
heard_turn-within listeners l before (ticked a b) p start e = start e
heard_turn-within listeners l before drain_began p start e = start e
heard_turn-within listeners l before stopped p start e = start e
heard_turn-within listeners l before received p start e = start e

-- Only the listeners are bound by the turns.
pub is_bound-within :
    (listeners : List ℕ) (l : ℕ) (before : Bool) (turns : List Turn)
    → All (TurnIn listeners) turns
    → (before ≡ true → contains l listeners ≡ true)
    → is_bound l before turns ≡ true
    → contains l listeners ≡ true
unfolding is_bound
is_bound-within listeners l before [] h start e = start e
is_bound-within listeners l before (turn ∷ turns) (p, h) start e =
    is_bound-within listeners l (heard_turn l before turn) turns h
      (heard_turn-within listeners l before turn p start) e

emit-listeners :
    (s : NodeServer) (event : NodeEvent) → (emit s event).ready_listeners ≡ s.ready_listeners
unfolding emit
emit-listeners s event = ground arith

emit_unregistered-listeners :
    (s : NodeServer) (peers : List Bytes)
    → (emit_unregistered s peers).ready_listeners ≡ s.ready_listeners
unfolding emit_unregistered
emit_unregistered-listeners s [] = refl
emit_unregistered-listeners s (peer ∷ peers) =
    emit_unregistered-listeners (emit s (discovery_unregistered peer)) peers
    ∙ emit-listeners s (discovery_unregistered peer)

expire_peers-listeners :
    (s : NodeServer) (now : ℕ) → (expire_peers s now).ready_listeners ≡ s.ready_listeners
unfolding expire_peers
expire_peers-listeners s now =
    let (peers, discovery) = expire s.discovery now in
    emit_unregistered-listeners (record s { discovery = discovery }) peers

emit_some-listeners :
    (event : Option NodeEvent) (s : NodeServer)
    → (emit_some (event, s)).ready_listeners ≡ s.ready_listeners
emit_some-listeners none s = refl
emit_some-listeners (some event) s = emit-listeners s event

module _ (signed_record_of : Bytes → Option PeerRecord) where
  handle_discovery_event-listeners :
      (s : NodeServer) (peer : Bytes) (request : Request) (sent : Bool) (now : ℕ)
      → (handle_discovery_event signed_record_of s peer request sent now).1.ready_listeners
        ≡ s.ready_listeners
  unfolding handle_discovery_event gauge
  handle_discovery_event-listeners s peer request sent now =
      let counted = record s { status = Status.discovery_request s.status } in
      let s1 = expire_peers counted now in
      let (handled, discovery) = handle signed_record_of s1.discovery peer request now in
      let same = expire_peers-listeners counted now in
      elim (Bool-cases (is_unsent handled.response sent)) [ inl t ↦ rw t same | inr f ↦ rw f same ]

  react-heard :
      (l : ℕ) (s : NodeServer) (event : SwarmEvent) (now : ℕ)
      → contains l (react signed_record_of s event now).1.ready_listeners
        ≡ heard l (contains l s.ready_listeners) event
  unfolding react heard with_listeners
  react-heard l s (new_listen_addr listener address) now =
      contains-insert_listener l listener s.ready_listeners
  react-heard l s (listener_closed listener) now =
      contains-remove_listener l listener s.ready_listeners
  react-heard l s (rendezvous_request peer request sent) now =
      ap (contains l) (handle_discovery_event-listeners s peer request sent now)
  react-heard l s connection_established now = refl
  react-heard l s connection_closed now = refl
  react-heard l s (reservation_req_accepted a b) now = refl
  react-heard l s (reservation_req_denied a) now = refl
  react-heard l s (circuit_req_accepted a b) now = refl
  react-heard l s (circuit_req_denied a b) now = refl
  react-heard l s (relay_circuit_closed a b) now = refl
  react-heard l s (relay_reservation_closed a) now = refl
  react-heard l s (reservation_timed_out a) now = refl
  react-heard l s other_event now = refl

  take_turn-heard :
      (l : ℕ) (s : NodeServer) (turn : Turn)
      → contains l (take_turn signed_record_of s turn).ready_listeners
        ≡ heard_turn l (contains l s.ready_listeners) turn
  unfolding take_turn heard_turn handle_event expire_discovery gauge
  take_turn-heard l s (swarm_event event now elapsed) =
      let s' = record s { status = Status.touch s.status elapsed } in
      let (reaction, s'') = react signed_record_of s' event now in
      ap (contains l) (emit_some-listeners reaction s'') ∙ react-heard l s' event now
  take_turn-heard l s (ticked now elapsed) =
      ap (contains l)
        (expire_peers-listeners (record s { status = Status.touch s.status elapsed }) now)
  take_turn-heard l s (started elapsed) = refl
  take_turn-heard l s drain_began = refl
  take_turn-heard l s stopped = refl
  take_turn-heard l s received = refl

  pub run-is_bound :
      (l : ℕ) (s : NodeServer) (turns : List Turn)
      → contains l (run signed_record_of s turns).ready_listeners
        ≡ is_bound l (contains l s.ready_listeners) turns
  unfolding run is_bound
  run-is_bound l s [] = refl
  run-is_bound l s (turn ∷ turns) =
      run-is_bound l (take_turn signed_record_of s turn) turns
      ∙ ap (λ before. is_bound l before turns) (take_turn-heard l s turn)
