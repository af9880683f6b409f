-- ===== src/Network/Driver/Answering.antt =====
-- crates/network/src/driver.rs: the turns use no channel and no sender more often than they are handed.
use envshare.Prelude.{
  ℕ, ◌+◌, ◌≤◌, ◌≡◌, sym, ap, Bool, none, some, List, [], ◌∷◌, Bool-cases, Option-cases, inl, inr,
  ok-inj, Bytes, arith, ok, err, guard-bind-eq-ok,
}
use envshare.Protocol.Message.{TransferRequest, TransferResponse}
use envshare.Node.Maps.{get}
use envshare.Network.Errors
use envshare.Network.Errors.{Network}
use envshare.Network.Driver.{NetworkConfig, NetworkDriver, same_id, new, call, has_room, validate}
use envshare.Network.Driver.Turns.{
  handle_command, finish_outbound, confirm, forget, finish_inbound, announce,
  handle_inbound_request, enter, rest_of, TransferEvent, request_received, response_received,
  outbound_failure, inbound_failure, response_sent, SwarmEvent, transfer, handle_transfer_event,
  advertise, handle_swarm_event, LanEvent, lan_found, lan_lost, handle_lan_event, Turn, commanded,
  swarm_event, lan_event, event_read, cancelled, commands_closed, clear, run,
  reservation_req_accepted, outbound_circuit_established, inbound_circuit_established,
  rendezvous_registered, rendezvous_discovered, discover_failed, register_failed,
  rendezvous_expired, new_listen_addr, connection_established, connection_closed, other_event,
}
use envshare.Network.Driver.Accounting.{
  occurs, count_values, count_responded, count_results, count_channels, count_handed, channels_of,
  Spends, Spends-then, Spends-refl, try_send-Spends, count-remove, count-insert, count-get,
}
use envshare.Network.Driver.Commands.{handle_command-Spends}

finish_outbound-Spends :
    (a : ℕ) (s : NetworkDriver) (request_id : ℕ) (outcome : Network TransferResponse)
    → Spends a 0 0 s (finish_outbound s request_id outcome)
unfolding finish_outbound call count_responded count_results
finish_outbound-Spends a s request_id outcome =
    elim (Option-cases (get same_id request_id s.outbound)) [
      | inl n ↦ rw (n, finish_outbound) (Spends-refl a s)
      | inr (result, q) ↦
          rw (q, finish_outbound)
            (record {
              channels_le = omega arith;
              results_le = omega (arith, count-get a request_id result s.outbound q);
            })
    ]

confirm-Spends :
    (a : ℕ) (s : NetworkDriver) (protocol_id : ℕ) (outcome : Network (Unit {0}))
    → Spends a 0 0 s (confirm s protocol_id outcome)
unfolding confirm call count_responded count_results
confirm-Spends a s protocol_id outcome =
    elim (Option-cases (get same_id protocol_id s.inbound_confirmations)) [
      | inl n ↦ rw (n, confirm) (Spends-refl a s)
      | inr (result, q) ↦
          rw (q, confirm)
            (record {
              channels_le = omega arith;
              results_le = omega (arith, count-get a protocol_id result s.inbound_confirmations q);
            })
    ]

forget-Spends :
    (a : ℕ) (s : NetworkDriver) (protocol_id : ℕ) → Spends a 0 0 s (forget s protocol_id)
unfolding forget
forget-Spends a s protocol_id =
    elim (Option-cases (get same_id protocol_id s.inbound_protocol_ids)) [
      | inl n ↦ rw (n, forget) (Spends-refl a s)
      | inr (request_id, q) ↦
          rw (q, forget)
            (record {
              channels_le = omega (arith, count-remove a request_id s.inbound);
              results_le = omega arith;
            })
    ]

finish_inbound-Spends :
    (a : ℕ) (s : NetworkDriver) (protocol_id : ℕ) (outcome : Network (Unit {0}))
    → Spends a 0 0 s (finish_inbound s protocol_id outcome)
unfolding finish_inbound
finish_inbound-Spends a s protocol_id outcome =
    Spends-then a 0 0 0 0 s (confirm s protocol_id outcome) _
      (confirm-Spends a s protocol_id outcome)
      (forget-Spends a (confirm s protocol_id outcome) protocol_id)

announce-Spends :
    (a : ℕ) (s : NetworkDriver) (peer : Bytes) (request_id protocol_id : ℕ)
    (request : TransferRequest)
    → Spends a 0 0 s (announce s peer request_id protocol_id request)
unfolding announce call count_responded count_results
announce-Spends a s peer request_id protocol_id request = elim (Bool-cases (has_room s)) [
  | inl t ↦ rw t (record { channels_le = omega arith; results_le = omega arith })
  | inr f ↦ elim (Option-cases (get same_id request_id s.inbound)) [
    | inl n ↦ rw (f, n, announce) (Spends-refl a s)
    | inr (channel, q) ↦
        rw (f, q, announce)
          (record {
            channels_le = omega (arith, count-get a request_id channel s.inbound q);
            results_le = omega arith;
          })
  ]
]

handle_inbound_request-Spends :
    (a : ℕ) (s : NetworkDriver) (peer : Bytes) (protocol_id : ℕ) (request : TransferRequest)
    (channel : ℕ)
    → Spends a (occurs a channel) 0 s (handle_inbound_request s peer protocol_id request channel)
unfolding handle_inbound_request enter
handle_inbound_request-Spends a s peer protocol_id request channel =
    let request_id = s.next_inbound_id in
    let announced =
      announce-Spends a (enter s protocol_id channel) peer request_id protocol_id request in
    record {
      channels_le =
          omega (arith, announced.channels_le, count-insert a request_id channel s.inbound);
      results_le = announced.results_le;
    }

handle_transfer_event-Spends :
    (a : ℕ) (s : NetworkDriver) (event : TransferEvent)
    → Spends a (channels_of a (swarm_event (transfer event))) 0 s (handle_transfer_event s event)
unfolding handle_transfer_event
handle_transfer_event-Spends a s (request_received peer request_id request channel) =
    handle_inbound_request-Spends a s peer request_id request channel
handle_transfer_event-Spends a s (response_received request_id response) =
    finish_outbound-Spends a s request_id (ok response)
handle_transfer_event-Spends a s (outbound_failure request_id) =
    finish_outbound-Spends a s request_id (err Errors.request)
handle_transfer_event-Spends a s (inbound_failure request_id) =
    finish_inbound-Spends a s request_id (err Errors.response)
handle_transfer_event-Spends a s (response_sent request_id) =
    finish_inbound-Spends a s request_id (ok tt)

advertise-Spends :
    (a : ℕ) (s : NetworkDriver) (address : Bytes) → Spends a 0 0 s (advertise s address)
unfolding advertise call count_responded count_results
advertise-Spends a s address = elim (Bool-cases s.lan) [
  | inl t ↦ rw t (record { channels_le = omega arith; results_le = omega arith })
  | inr f ↦ rw f (record { channels_le = omega arith; results_le = omega arith })
]

handle_swarm_event-Spends :
    (a : ℕ) (s : NetworkDriver) (event : SwarmEvent)
    → Spends a (channels_of a (swarm_event event)) 0 s (handle_swarm_event s event)
unfolding handle_swarm_event
handle_swarm_event-Spends a s (transfer event) = handle_transfer_event-Spends a s event
handle_swarm_event-Spends a s (reservation_req_accepted relay_peer renewal) = try_send-Spends a s _
handle_swarm_event-Spends a s (outbound_circuit_established relay_peer) = try_send-Spends a s _
handle_swarm_event-Spends a s (inbound_circuit_established source_peer) = try_send-Spends a s _
handle_swarm_event-Spends a s (rendezvous_registered node ttl) = try_send-Spends a s _
handle_swarm_event-Spends a s (rendezvous_discovered node registrations) = try_send-Spends a s _
handle_swarm_event-Spends a s (discover_failed node) = try_send-Spends a s _
handle_swarm_event-Spends a s (register_failed node) = try_send-Spends a s _
handle_swarm_event-Spends a s (rendezvous_expired peer) = try_send-Spends a s _
handle_swarm_event-Spends a s (new_listen_addr address) =
    Spends-then a 0 0 0 0 s (advertise s address) _ (advertise-Spends a s address)
      (try_send-Spends a (advertise s address) _)
handle_swarm_event-Spends a s (connection_established peer) = try_send-Spends a s _
handle_swarm_event-Spends a s (connection_closed peer) = try_send-Spends a s _
handle_swarm_event-Spends a s other_event = Spends-refl a s

handle_lan_event-Spends :
    (a : ℕ) (s : NetworkDriver) (event : LanEvent) → Spends a 0 0 s (handle_lan_event s event)
unfolding handle_lan_event
handle_lan_event-Spends a s (lan_found peer) = try_send-Spends a s _
handle_lan_event-Spends a s (lan_lost peer) = try_send-Spends a s _

clear-Spends : (a : ℕ) (s : NetworkDriver) → Spends a 0 0 s (clear s)
unfolding clear count_values
clear-Spends a s = record { channels_le = omega arith; results_le = omega arith }

Spends-weaken :
    (a c r d q : ℕ) (s t : NetworkDriver) → Spends a c r s t → Spends a (c + d) (r + q) s t
Spends-weaken a c r d q s t h = record {
  channels_le = omega (arith, h.channels_le);
  results_le = omega (arith, h.results_le);
}

run-Spends :
    (a : ℕ) (s : NetworkDriver) (turns : List Turn)
    → Spends a (count_channels a turns) (count_handed a turns) s (run s turns)
unfolding run count_channels count_handed
run-Spends a s [] = Spends-refl a s
run-Spends a s (commanded command answers ∷ turns) =
    Spends-then a 0 _ _ _ s (handle_command s command answers) _
      (handle_command-Spends a s command answers) (run-Spends a _ turns)
run-Spends a s (swarm_event event ∷ turns) =
    Spends-then a _ 0 _ _ s (handle_swarm_event s event) _ (handle_swarm_event-Spends a s event)
      (run-Spends a _ turns)
run-Spends a s (lan_event none ∷ turns) =
    Spends-then a 0 0 _ _ s s _ (Spends-refl a s) (run-Spends a s turns)
run-Spends a s (lan_event (some event) ∷ turns) =
    Spends-then a 0 0 _ _ s (handle_lan_event s event) _ (handle_lan_event-Spends a s event)
      (run-Spends a _ turns)
run-Spends a s (event_read ∷ turns) =
    let rest = run-Spends a (record s { events = rest_of s.events }) turns in
    record {
      channels_le = omega (arith, rest.channels_le);
      results_le = omega (arith, rest.results_le);
    }
run-Spends a s (cancelled ∷ turns) = Spends-weaken a 0 0 _ _ s _ (clear-Spends a s)
run-Spends a s (commands_closed ∷ turns) = Spends-weaken a 0 0 _ _ s _ (clear-Spends a s)

-- A new driver has empty tables and has called nothing.
new_driver :
    (config : NetworkConfig) (builds lan_starts : Bool) (s : NetworkDriver)
    → new config builds lan_starts ≡ ok s
    → (s.effects ≡ []) × (s.inbound ≡ []) × (s.outbound ≡ []) × (s.inbound_confirmations ≡ [])
unfolding new
new_driver config builds lan_starts s h =
    let (valid, h1) = guard-bind-eq-ok (validate config) Errors.configuration _ h in
    let (built, h2) = guard-bind-eq-ok builds Errors.configuration _ h1 in
    let (started, h3) = guard-bind-eq-ok _ Errors.configuration _ h2 in
    let e = sym (ok-inj h3) in
    (
      ap (λ (x : NetworkDriver). x.effects) e,
      ap (λ (x : NetworkDriver). x.inbound) e,
      ap (λ (x : NetworkDriver). x.outbound) e,
      ap (λ (x : NetworkDriver). x.inbound_confirmations) e,
    )

-- Over any sequence of turns of a driver that `new` made, it sends at most one response for each
-- time that libp2p handed it a response channel, and at most one outcome for each time that a
-- command handed it a result.
pub run-AnswersOnce :
    (config : NetworkConfig) (builds lan_starts : Bool) (s : NetworkDriver) (turns : List Turn)
    (a : ℕ)
    → new config builds lan_starts ≡ ok s
    → (count_responded a (run s turns).effects ≤ count_channels a turns)
      × (count_results a (run s turns).effects ≤ count_handed a turns)
unfolding count_responded count_results count_values
run-AnswersOnce config builds lan_starts s turns a h =
    let spent = run-Spends a s turns in
    let (effects, inbound, outbound, confirmations) = new_driver config builds lan_starts s h in
    let no_response : count_responded a s.effects ≡ 0 = ap (count_responded a) effects in
    let no_result : count_results a s.effects ≡ 0 = ap (count_results a) effects in
    let no_inbound : count_values a s.inbound ≡ 0 = ap (count_values a) inbound in
    let no_outbound : count_values a s.outbound ≡ 0 = ap (count_values a) outbound in
    let unconfirmed : count_values a s.inbound_confirmations ≡ 0 =
      ap (count_values a) confirmations in
    (
      omega (arith, spent.channels_le, no_response, no_inbound),
      omega (arith, spent.results_le, no_result, no_outbound, unconfirmed),
    )
