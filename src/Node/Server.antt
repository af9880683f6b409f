-- ===== src/Node/Server.antt =====
-- crates/node/src/relay.rs: the server's loop over the events of the swarm and the ticks of its timer.
-- The swarm itself is libp2p: its events are arguments, and so is whether it sends a response. The
-- channel of events is a queue that another task empties.
mod Listeners
mod History
mod Health
pub mod Consistency
mod Tests
use envshare.Prelude.{
  ℕ, ◌+◌, Bool, true, false, not, Option, none, some, List, [], ◌∷◌, ◌++◌, ltb, ◌==◌, if◌then◌else◌,
  length, Bytes,
}
use envshare.Node.Address.{Protocol}
use envshare.Node.Config.{NodeConfig, limits_of}
use envshare.Node.Store.{
  Store, Request, Event, registered, unregistered, rejected_event, served, Response,
}
use envshare.Node.Store
use envshare.Node.Discovery.{PeerRecord, handle, expire}
use envshare.Node.Status
use envshare.Node.Status.{NodeStatus}

pub data NodeEvent : Type 0 where
  listening : (address : List Protocol) → NodeEvent
  reservation_accepted : (peer : Bytes) (renewed : Bool) → NodeEvent
  circuit_accepted circuit_closed : (source destination : Bytes) → NodeEvent
  reservation_closed reservation_denied : (peer : Bytes) → NodeEvent
  circuit_denied : (source destination : Bytes) → NodeEvent
  discovery_registered discovery_unregistered : (peer : Bytes) → NodeEvent
  discovery_served : (peer : Bytes) (result_count : ℕ) → NodeEvent
  discovery_rejected : (peer : Bytes) → NodeEvent

-- The events of the swarm that the server looks at; a request comes with whether its response is
-- sent, if it has one.
pub data SwarmEvent : Type 0 where
  new_listen_addr : (listener : ℕ) (address : List Protocol) → SwarmEvent
  connection_established connection_closed : SwarmEvent
  listener_closed : (listener : ℕ) → SwarmEvent
  reservation_req_accepted : (peer : Bytes) (renewed : Bool) → SwarmEvent
  reservation_req_denied : (peer : Bytes) → SwarmEvent
  circuit_req_accepted circuit_req_denied : (source destination : Bytes) → SwarmEvent
  relay_circuit_closed : (source destination : Bytes) → SwarmEvent
  relay_reservation_closed reservation_timed_out : (peer : Bytes) → SwarmEvent
  rendezvous_request : (peer : Bytes) (request : Request) (sent : Bool) → SwarmEvent
  other_event : SwarmEvent

pub record NodeServer : Type 0 where
  pub discovery : Store
  pub status : NodeStatus
  pub ready_listeners : List ℕ
  pub events : List NodeEvent
  pub event_capacity : ℕ
  pub external_addresses : List (List Protocol)

-- `NodeServer::new` for a configuration that is valid.
unfoldable pub new : NodeConfig → NodeServer
new config = record {
  discovery = Store.new (limits_of config);
  status =
      Status.configure_capacities
        (Status.expect_listeners Status.default (length config.listen_addresses))
        config.max_connections config.max_reservations config.max_circuits
        config.discovery_registrations_total;
  ready_listeners = [];
  events = [];
  event_capacity = config.event_capacity;
  external_addresses = [];
}

-- What `emit` counts.
pub count_event : NodeStatus → NodeEvent → NodeStatus
count_event s (reservation_accepted peer renewed) = Status.reservation_accepted s renewed
count_event s (reservation_closed peer) = Status.reservation_closed s
count_event s (reservation_denied peer) = Status.reservation_denied s
count_event s (circuit_accepted source destination) = Status.circuit_accepted s
count_event s (circuit_closed source destination) = Status.circuit_closed s
count_event s (circuit_denied source destination) = Status.circuit_denied s
count_event s (discovery_rejected peer) = Status.discovery_rejected s
count_event s _ = s

-- `try_send` fails when the channel is full.
pub emit : NodeServer → NodeEvent → NodeServer
emit s event =
    let status = count_event s.status event in
    if ltb (length s.events) s.event_capacity
    then record s { status = status; events = s.events ++ event ∷ [] }
    else record s { status = Status.event_dropped status }

pub emit_unregistered : NodeServer → List Bytes → NodeServer
emit_unregistered s [] = s
emit_unregistered s (peer ∷ peers) = emit_unregistered (emit s (discovery_unregistered peer)) peers

-- The loop over the peers that `discovery.expire` returns.
pub expire_peers : NodeServer → ℕ → NodeServer
expire_peers s now =
    let (peers, discovery) = expire s.discovery now in
    emit_unregistered (record s { discovery = discovery }) peers

pub gauge : NodeServer → NodeServer
gauge s = record s {
  status = Status.set_discovery_registrations s.status (length s.discovery.registrations);
}

pub expire_discovery : NodeServer → ℕ → ℕ → NodeServer
unfolding gauge
expire_discovery s now elapsed =
    gauge (expire_peers (record s { status = Status.touch s.status elapsed }) now)

unfoldable pub node_event : Event → NodeEvent
node_event (registered peer) = discovery_registered peer
node_event (unregistered peer) = discovery_unregistered peer
node_event (served peer count) = discovery_served peer count
node_event (rejected_event peer) = discovery_rejected peer

-- Whether the response, if there is one, could not be sent.
abbrev is_unsent : Option Response → Bool → Bool
is_unsent none sent = false
is_unsent (some response) sent = not sent

pub insert_listener : ℕ → List ℕ → List ℕ
insert_listener listener [] = listener ∷ []
insert_listener listener (l ∷ listeners) =
    let rest = l ∷ insert_listener listener listeners in
    if l == listener then l ∷ listeners else rest

pub remove_listener : ℕ → List ℕ → List ℕ
remove_listener listener [] = []
remove_listener listener (l ∷ listeners) =
    let rest = remove_listener listener listeners in if l == listener then rest else l ∷ rest

-- The set of the listeners that are bound, and its size in the status.
pub with_listeners : NodeServer → List ℕ → NodeServer
with_listeners s listeners = record s {
  ready_listeners = listeners;
  status = Status.listeners_ready s.status (length listeners);
}

abbrev emit_some : Option NodeEvent × NodeServer → NodeServer
emit_some (none, s) = s
emit_some (some event, s) = emit s event

-- What the loop of `serve` and of `drain` reacts to, and what the reader of the channel does.
pub data Turn : Type 0 where
  started : (elapsed : ℕ) → Turn
  swarm_event : (event : SwarmEvent) (now elapsed : ℕ) → Turn
  ticked : (now elapsed : ℕ) → Turn
  drain_began stopped received : Turn

abbrev tail : List NodeEvent → List NodeEvent
tail [] = []
tail (_ ∷ events) = events

module _ (signed_record_of : Bytes → Option PeerRecord) where
  pub handle_discovery_event : NodeServer → Bytes → Request → Bool → ℕ → NodeEvent × NodeServer
  handle_discovery_event s peer request sent now =
      let s1 = expire_peers (record s { status = Status.discovery_request s.status }) now in
      let (handled, discovery) = handle signed_record_of s1.discovery peer request now in
      let s2 = record s1 { discovery = discovery } in
      if is_unsent handled.response sent
      then (discovery_rejected peer, s2)
      else (node_event handled.event, gauge s2)

  -- The match of `handle_event`, with the event that it gives.
  pub react : NodeServer → SwarmEvent → ℕ → Option NodeEvent × NodeServer
  unfolding with_listeners
  react s (new_listen_addr listener address) now = (
    some (listening address),
    with_listeners (record s { external_addresses = address ∷ s.external_addresses })
        (insert_listener listener s.ready_listeners),
  )
  react s connection_established now =
      (none, record s { status = Status.connection_opened s.status })
  react s connection_closed now = (none, record s { status = Status.connection_closed s.status })
  react s (listener_closed listener) now =
      (none, with_listeners s (remove_listener listener s.ready_listeners))
  react s (reservation_req_accepted peer renewed) now =
      (some (reservation_accepted peer renewed), s)
  react s (reservation_req_denied peer) now = (some (reservation_denied peer), s)
  react s (circuit_req_accepted source destination) now =
      (some (circuit_accepted source destination), s)
  react s (circuit_req_denied source destination) now =
      (some (circuit_denied source destination), s)
  react s (relay_circuit_closed source destination) now =
      (some (circuit_closed source destination), s)
  react s (relay_reservation_closed peer) now = (some (reservation_closed peer), s)
  react s (reservation_timed_out peer) now = (some (reservation_closed peer), s)
  react s (rendezvous_request peer request sent) now =
      let (event, s') = handle_discovery_event s peer request sent now in (some event, s')
  react s other_event now = (none, s)

  pub handle_event : NodeServer → SwarmEvent → ℕ → ℕ → NodeServer
  handle_event s event now elapsed =
      emit_some (react (record s { status = Status.touch s.status elapsed }) event now)

  unfoldable pub take_turn : NodeServer → Turn → NodeServer
  take_turn s (started elapsed) = record s { status = Status.start s.status elapsed }
  take_turn s (swarm_event event now elapsed) = handle_event s event now elapsed
  take_turn s (ticked now elapsed) = expire_discovery s now elapsed
  take_turn s drain_began = record s { status = Status.begin_drain s.status }
  take_turn s stopped = record s { status = Status.stop s.status }
  take_turn s received = record s { events = tail s.events }

  unfoldable pub run : NodeServer → List Turn → NodeServer
  run s [] = s
  run s (turn ∷ turns) = run (take_turn s turn) turns
