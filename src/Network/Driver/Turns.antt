-- ===== src/Network/Driver/Turns.antt =====
-- crates/network/src/driver.rs: the handlers of `NetworkDriver` and the turns of its loop.
use envshare.Prelude.{
  ℕ, ◌+◌, ◌%◌, ◌^◌, max, Bool, not, ◌||◌, Option, none, some, List, [], ◌∷◌, take, ltb, ◌==◌,
  if◌then◌else◌, Bytes, ok, err,
}
use envshare.Protocol.Limits.{protocol_version}
use envshare.Protocol.Errors.{temporarily_unavailable}
use envshare.Protocol.Message.{TransferRequest, TransferResponse, error}
use envshare.Node.Maps.{Map, get, insert, remove, retain}
use envshare.Network.Errors
use envshare.Network.Errors.{Network}
use envshare.Network.Discovery.{DiscoveredPeer}
use envshare.Network.Driver.{
  NetworkDriver, NetworkEvent, listening, inbound_request, connected, disconnected,
  relay_reservation, outbound_relay_circuit, inbound_relay_circuit, discovery_registered,
  discovery_results, discovery_failed, discovery_expired, lan_discovered, lan_expired, Command,
  listen_on, dial_peer, request_of, respond, discovery, DiscoveryCommand, add_address,
  remove_address, register, discover, unregister, external_added, external_removed, advertised,
  dialed, requested, responded, registered, discovered, unregistered, replied, answered, Answers,
  same_id, call, has_room, try_send, add_peer_addresses, listen_all, count_listening, outcome_of,
  protocol_of,
}

-- The table of the ids without those of the request.
abbrev pub without : ℕ → Map ℕ ℕ → Map ℕ ℕ
without request_id m = retain (λ e. not (e.value == request_id)) m

-- `Command::Respond` with the protocol id and the channel, once the channel is taken.
unfoldable pub send_response :
    NetworkDriver → ℕ → TransferResponse → ℕ → Bool → Option ℕ → Option ℕ → NetworkDriver
unfolding call
send_response s request_id response result sends (some protocol_id) (some channel) =
    let s' = call s (responded channel response) in
    if sends
    then record s' {
      inbound_confirmations = insert same_id protocol_id result s'.inbound_confirmations;
    }
    else call (record s' { inbound_protocol_ids = without request_id s'.inbound_protocol_ids })
        (replied result (err Errors.response))
send_response s request_id response result sends _ _ =
    call (record s { inbound_protocol_ids = without request_id s.inbound_protocol_ids })
      (replied result (err Errors.response))

unfoldable pub handle_respond : NetworkDriver → ℕ → TransferResponse → ℕ → Bool → NetworkDriver
unfolding send_response
handle_respond s request_id response result sends =
    send_response (record s { inbound = remove same_id request_id s.inbound }) request_id response
      result sends (protocol_of request_id s.inbound_protocol_ids)
      (get same_id request_id s.inbound)

unfoldable pub handle_discovery_command : NetworkDriver → DiscoveryCommand → Answers → NetworkDriver
unfolding call add_peer_addresses
handle_discovery_command s (add_address address result) answers =
    call (call s (external_added address)) (replied result (ok tt))
handle_discovery_command s (remove_address address result) answers =
    call (call s (external_removed address)) (replied result (ok tt))
handle_discovery_command s (register node node_addresses namespace ttl_seconds result) answers =
    let s' = add_peer_addresses s node node_addresses in
    if (ttl_seconds == 0 || ltb 86400 ttl_seconds) || not (answers.accepts_namespace namespace)
    then call s' (replied result (err Errors.configuration))
    else call (call s' (registered node namespace ttl_seconds))
        (replied result (outcome_of answers.registers (err Errors.configuration)))
handle_discovery_command s (discover node node_addresses namespace result) answers =
    let s' = add_peer_addresses s node node_addresses in
    if answers.accepts_namespace namespace
    then call (call s' (discovered node namespace s'.max_discovery_results))
        (replied result (ok tt))
    else call s' (replied result (err Errors.configuration))
handle_discovery_command s (unregister node namespace result) answers =
    if answers.accepts_namespace namespace
    then call (call s (unregistered node namespace)) (replied result (ok tt))
    else call s (replied result (err Errors.configuration))

unfoldable pub handle_command : NetworkDriver → Command → Answers → NetworkDriver
unfolding call listen_all count_listening add_peer_addresses handle_respond handle_discovery_command
handle_command s (listen_on addresses result) answers =
    let count = count_listening answers.listens addresses in
    call (listen_all s addresses) (replied result (outcome_of (ltb 0 count) (err Errors.listen)))
handle_command s (dial_peer peer addresses result) answers =
    call (call s (dialed peer addresses))
      (replied result (outcome_of answers.dials (err Errors.dial)))
handle_command s (request_of peer addresses request result) answers =
    let s' =
      call (add_peer_addresses s peer addresses) (requested answers.request_id peer request) in
    record s' { outbound = insert same_id answers.request_id result s'.outbound }
handle_command s (respond request_id response result) answers =
    handle_respond s request_id response result answers.sends
handle_command s (discovery command) answers = handle_discovery_command s command answers

-- The end of an outbound request: its result is sent, if it still waits.
unfoldable pub finish_outbound : NetworkDriver → ℕ → Network TransferResponse → NetworkDriver
unfolding call
finish_outbound s request_id outcome = elim (get same_id request_id s.outbound) [
  | some result ↦
      call (record s { outbound = remove same_id request_id s.outbound }) (answered result outcome)
  | none ↦ s
]

unfoldable pub confirm : NetworkDriver → ℕ → Network (Unit {0}) → NetworkDriver
unfolding call
confirm s protocol_id outcome = elim (get same_id protocol_id s.inbound_confirmations) [
  | some result ↦
      call (record s { inbound_confirmations = remove same_id protocol_id s.inbound_confirmations })
        (replied result outcome)
  | none ↦ s
]

unfoldable pub forget : NetworkDriver → ℕ → NetworkDriver
forget s protocol_id = elim (get same_id protocol_id s.inbound_protocol_ids) [
  | some request_id ↦ record s {
    inbound_protocol_ids = remove same_id protocol_id s.inbound_protocol_ids;
    inbound = remove same_id request_id s.inbound;
  }
  | none ↦ s
]

-- The end of an inbound request, after its response was sent or its stream failed.
unfoldable pub finish_inbound : NetworkDriver → ℕ → Network (Unit {0}) → NetworkDriver
unfolding confirm forget
finish_inbound s protocol_id outcome = forget (confirm s protocol_id outcome) protocol_id

abbrev pub busy_response : TransferResponse
busy_response =
    error (record { protocol_version = protocol_version; code = temporarily_unavailable })

-- `next_inbound_id.wrapping_add(1).max(1)`
abbrev pub next_id : ℕ → ℕ
next_id id = max ((id + 1) % 2 ^ 64) 1

-- The request is in the tables, and its event is sent to the application or the peer is refused.
unfoldable pub announce : NetworkDriver → Bytes → ℕ → ℕ → TransferRequest → NetworkDriver
unfolding call has_room try_send
announce s peer request_id protocol_id request =
    if has_room s
    then try_send s (inbound_request peer request_id request)
    else elim (get same_id request_id s.inbound) [
      | some channel ↦
          call
            (record s {
              inbound = remove same_id request_id s.inbound;
              inbound_protocol_ids = remove same_id protocol_id s.inbound_protocol_ids;
            })
            (responded channel busy_response)
      | none ↦ s
    ]

-- The request takes the next id, and its channel and ids are put in the tables.
unfoldable pub enter : NetworkDriver → ℕ → ℕ → NetworkDriver
enter s protocol_id channel = record s {
  next_inbound_id = next_id s.next_inbound_id;
  inbound = insert same_id s.next_inbound_id channel s.inbound;
  inbound_protocol_ids = insert same_id protocol_id s.next_inbound_id s.inbound_protocol_ids;
}

unfoldable pub handle_inbound_request :
    NetworkDriver → Bytes → ℕ → TransferRequest → ℕ → NetworkDriver
unfolding enter announce
handle_inbound_request s peer protocol_id request channel =
    announce (enter s protocol_id channel) peer s.next_inbound_id protocol_id request

pub data TransferEvent : Type 0 where
  request_received :
      (peer : Bytes) (request_id : ℕ) (request : TransferRequest) (channel : ℕ) → TransferEvent
  response_received : (request_id : ℕ) (response : TransferResponse) → TransferEvent
  outbound_failure inbound_failure response_sent : (request_id : ℕ) → TransferEvent

-- `other_event` stands for the events of the swarm that are ignored.
pub data SwarmEvent : Type 0 where
  transfer : TransferEvent → SwarmEvent
  reservation_req_accepted : (relay_peer : Bytes) (renewal : Bool) → SwarmEvent
  outbound_circuit_established : (relay_peer : Bytes) → SwarmEvent
  inbound_circuit_established : (source_peer : Bytes) → SwarmEvent
  rendezvous_registered : (node : Bytes) (ttl : ℕ) → SwarmEvent
  rendezvous_discovered : (node : Bytes) (registrations : List DiscoveredPeer) → SwarmEvent
  discover_failed register_failed : (node : Bytes) → SwarmEvent
  rendezvous_expired : (peer : Bytes) → SwarmEvent
  new_listen_addr : (address : Bytes) → SwarmEvent
  connection_established connection_closed : (peer : Bytes) → SwarmEvent
  other_event : SwarmEvent

unfoldable pub handle_transfer_event : NetworkDriver → TransferEvent → NetworkDriver
unfolding handle_inbound_request finish_outbound finish_inbound
handle_transfer_event s (request_received peer request_id request channel) =
    handle_inbound_request s peer request_id request channel
handle_transfer_event s (response_received request_id response) =
    finish_outbound s request_id (ok response)
handle_transfer_event s (outbound_failure request_id) =
    finish_outbound s request_id (err Errors.request)
handle_transfer_event s (inbound_failure request_id) =
    finish_inbound s request_id (err Errors.response)
handle_transfer_event s (response_sent request_id) = finish_inbound s request_id (ok tt)

-- The multicast service hears of a new address, if there is one.
unfoldable pub advertise : NetworkDriver → Bytes → NetworkDriver
unfolding call
advertise s address = if s.lan then call s (advertised address) else s

unfoldable pub handle_swarm_event : NetworkDriver → SwarmEvent → NetworkDriver
unfolding handle_transfer_event try_send advertise
handle_swarm_event s (transfer event) = handle_transfer_event s event
handle_swarm_event s (reservation_req_accepted relay_peer renewal) =
    try_send s (relay_reservation relay_peer renewal)
handle_swarm_event s (outbound_circuit_established relay_peer) =
    try_send s (outbound_relay_circuit relay_peer)
handle_swarm_event s (inbound_circuit_established source_peer) =
    try_send s (inbound_relay_circuit source_peer)
handle_swarm_event s (rendezvous_registered node ttl) = try_send s (discovery_registered node ttl)
handle_swarm_event s (rendezvous_discovered node registrations) =
    try_send s (discovery_results node (take s.max_discovery_results registrations))
handle_swarm_event s (discover_failed node) = try_send s (discovery_failed node)
handle_swarm_event s (register_failed node) = try_send s (discovery_failed node)
handle_swarm_event s (rendezvous_expired peer) = try_send s (discovery_expired peer)
handle_swarm_event s (new_listen_addr address) = try_send (advertise s address) (listening address)
handle_swarm_event s (connection_established peer) = try_send s (connected peer)
handle_swarm_event s (connection_closed peer) = try_send s (disconnected peer)
handle_swarm_event s other_event = s

pub data LanEvent : Type 0 where
  lan_found : DiscoveredPeer → LanEvent
  lan_lost : (peer : Bytes) → LanEvent

unfoldable pub handle_lan_event : NetworkDriver → LanEvent → NetworkDriver
unfolding try_send
handle_lan_event s (lan_found peer) = try_send s (lan_discovered (peer ∷ []))
handle_lan_event s (lan_lost peer) = try_send s (lan_expired peer)

-- What the loop of `run` reacts to while it goes on, and the application's reading of an event. The
-- multicast service gives nothing when it is closed.
pub data Turn : Type 0 where
  commanded : Command → Answers → Turn
  swarm_event : SwarmEvent → Turn
  lan_event : Option LanEvent → Turn
  event_read : Turn
  cancelled commands_closed : Turn

abbrev pub rest_of : List NetworkEvent → List NetworkEvent
rest_of [] = []
rest_of (_ ∷ events) = events

-- What `run` does when the loop is left.
unfoldable pub clear : NetworkDriver → NetworkDriver
clear s = record s {
  outbound = [];
  inbound = [];
  inbound_protocol_ids = [];
  inbound_confirmations = [];
}

unfoldable pub run : NetworkDriver → List Turn → NetworkDriver
unfolding handle_command handle_swarm_event handle_lan_event clear
run s [] = s
run s (commanded command answers ∷ turns) = run (handle_command s command answers) turns
run s (swarm_event event ∷ turns) = run (handle_swarm_event s event) turns
run s (lan_event none ∷ turns) = run s turns
run s (lan_event (some event) ∷ turns) = run (handle_lan_event s event) turns
run s (event_read ∷ turns) = run (record s { events = rest_of s.events }) turns
run s (cancelled ∷ turns) = clear s
run s (commands_closed ∷ turns) = clear s
