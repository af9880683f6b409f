-- ===== src/Network/Driver/Exchange.antt =====
-- crates/network/src/driver.rs: one inbound request, from its arrival to the end of its response.
use envshare.Prelude.{ℕ, ◌≡◌, refl, ap, ◌∙◌, Bool, true, false, [], ◌∷◌, ◌++◌, Bytes, ok, err}
use envshare.Protocol.Message.{TransferRequest, TransferResponse}
use envshare.Node.Maps.{contains_key}
use envshare.Network.Errors
use envshare.Network.Errors.{Network}
use envshare.Network.Driver.{
  NetworkDriver, respond, responded, replied, inbound_request, Answers, same_id, call, has_room,
  try_send, outcome_of,
}
use envshare.Network.Driver.Tables.{
  remove_absent, insert_absent, get_first, remove_first, protocol_of_first,
}
use envshare.Network.Driver.Turns.{
  send_response, handle_respond, handle_command, confirm, forget, finish_inbound, announce, enter,
  handle_inbound_request, TransferEvent, request_received, inbound_failure, response_sent, transfer,
  handle_transfer_event, handle_swarm_event, commanded, swarm_event, run, next_id, busy_response,
}

-- The ids of the request are not in use.
pub record IsFresh (s : NetworkDriver) (protocol_id : ℕ) : Type 0 where
  pub id : contains_key same_id s.next_inbound_id s.inbound ≡ false
  pub protocol : contains_key same_id protocol_id s.inbound_protocol_ids ≡ false
  pub confirmation : contains_key same_id protocol_id s.inbound_confirmations ≡ false

-- The driver with the request in its tables.
abbrev entered : NetworkDriver → Bytes → ℕ → TransferRequest → ℕ → NetworkDriver
entered s peer protocol_id request channel = record s {
  next_inbound_id = next_id s.next_inbound_id;
  inbound = record { key = s.next_inbound_id; value = channel } ∷ s.inbound;
  inbound_protocol_ids =
      record { key = protocol_id; value = s.next_inbound_id } ∷ s.inbound_protocol_ids;
}

enter-entered :
    (s : NetworkDriver) (peer : Bytes) (protocol_id : ℕ) (request : TransferRequest) (channel : ℕ)
    → IsFresh s protocol_id
    → enter s protocol_id channel ≡ entered s peer protocol_id request channel
unfolding enter
enter-entered s peer protocol_id request channel fresh =
    rw
      (
        insert_absent s.next_inbound_id channel s.inbound fresh.id,
        insert_absent protocol_id s.next_inbound_id s.inbound_protocol_ids fresh.protocol,
      )
      refl

-- The request is announced with its channel in the tables.
announced :
    (s : NetworkDriver) (peer : Bytes) (protocol_id : ℕ) (request : TransferRequest) (channel : ℕ)
    → IsFresh s protocol_id
    → handle_inbound_request s peer protocol_id request channel
      ≡ announce
          (entered s peer protocol_id request channel)
          peer
          s.next_inbound_id
          protocol_id
          request
unfolding handle_inbound_request
announced s peer protocol_id request channel fresh =
    ap (λ t. announce t peer s.next_inbound_id protocol_id request)
      (enter-entered s peer protocol_id request channel fresh)

received :
    (s : NetworkDriver) (peer : Bytes) (protocol_id : ℕ) (request : TransferRequest) (channel : ℕ)
    → has_room s ≡ true
    → IsFresh s protocol_id
    → handle_inbound_request s peer protocol_id request channel
      ≡ record (entered s peer protocol_id request channel) {
        events = s.events ++ inbound_request peer s.next_inbound_id request ∷ [];
      }
unfolding announce try_send has_room
received s peer protocol_id request channel room fresh =
    announced s peer protocol_id request channel fresh ∙ rw room refl

-- Without room for its event, an inbound request with ids that are not in use is answered as
-- temporarily unavailable on its channel, and leaves nothing in the tables.
pub handle_inbound_request_refused :
    (s : NetworkDriver) (peer : Bytes) (protocol_id : ℕ) (request : TransferRequest) (channel : ℕ)
    → has_room s ≡ false
    → IsFresh s protocol_id
    → handle_inbound_request s peer protocol_id request channel ≡ record s {
      next_inbound_id = next_id s.next_inbound_id;
      effects = responded channel busy_response ∷ s.effects;
    }
unfolding announce call has_room
handle_inbound_request_refused s peer protocol_id request channel full fresh =
    announced s peer protocol_id request channel fresh
    ∙ rw
        (
          full,
          get_first s.next_inbound_id channel s.inbound,
          remove_first s.next_inbound_id channel s.inbound fresh.id,
          remove_first protocol_id s.next_inbound_id s.inbound_protocol_ids fresh.protocol,
        )
        refl

-- The driver with the response sent and not yet confirmed.
abbrev awaiting :
    NetworkDriver → Bytes → ℕ → TransferRequest → ℕ → TransferResponse → ℕ → NetworkDriver
awaiting s peer protocol_id request channel response result = record s {
  next_inbound_id = next_id s.next_inbound_id;
  inbound_protocol_ids =
      record { key = protocol_id; value = s.next_inbound_id } ∷ s.inbound_protocol_ids;
  inbound_confirmations = record { key = protocol_id; value = result } ∷ s.inbound_confirmations;
  events = s.events ++ inbound_request peer s.next_inbound_id request ∷ [];
  effects = responded channel response ∷ s.effects;
}

sent :
    (s : NetworkDriver) (peer : Bytes) (protocol_id : ℕ) (request : TransferRequest) (channel : ℕ)
    (response : TransferResponse) (result : ℕ)
    → IsFresh s protocol_id
    → handle_respond
        (record (entered s peer protocol_id request channel) {
          events = s.events ++ inbound_request peer s.next_inbound_id request ∷ [];
        })
        s.next_inbound_id
        response
        result
        true
      ≡ awaiting s peer protocol_id request channel response result
unfolding handle_respond send_response call
sent s peer protocol_id request channel response result fresh =
    rw
      (
        protocol_of_first protocol_id s.next_inbound_id s.inbound_protocol_ids,
        get_first s.next_inbound_id channel s.inbound,
        remove_first s.next_inbound_id channel s.inbound fresh.id,
        insert_absent protocol_id result s.inbound_confirmations fresh.confirmation,
      )
      refl

-- The end of the exchange, told by the swarm.
abbrev end_of : Bool → ℕ → TransferEvent
end_of true protocol_id = response_sent protocol_id
end_of false protocol_id = inbound_failure protocol_id

-- The driver once the result is sent, with the ids still in the table.
abbrev confirmed :
    NetworkDriver
    → Bytes
    → ℕ
    → TransferRequest
    → ℕ
    → TransferResponse
    → ℕ
    → Network (Unit {0})
    → NetworkDriver
confirmed s peer protocol_id request channel response result outcome = record s {
  next_inbound_id = next_id s.next_inbound_id;
  inbound_protocol_ids =
      record { key = protocol_id; value = s.next_inbound_id } ∷ s.inbound_protocol_ids;
  events = s.events ++ inbound_request peer s.next_inbound_id request ∷ [];
  effects = replied result outcome ∷ responded channel response ∷ s.effects;
}

confirm-confirmed :
    (s : NetworkDriver) (peer : Bytes) (protocol_id : ℕ) (request : TransferRequest) (channel : ℕ)
    (response : TransferResponse) (result : ℕ) (outcome : Network (Unit {0}))
    → IsFresh s protocol_id
    → confirm (awaiting s peer protocol_id request channel response result) protocol_id outcome
      ≡ confirmed s peer protocol_id request channel response result outcome
unfolding confirm call
confirm-confirmed s peer protocol_id request channel response result outcome fresh =
    rw
      (
        get_first protocol_id result s.inbound_confirmations,
        remove_first protocol_id result s.inbound_confirmations fresh.confirmation,
        confirm,
      )
      refl

forgotten :
    (s : NetworkDriver) (peer : Bytes) (protocol_id : ℕ) (request : TransferRequest) (channel : ℕ)
    (response : TransferResponse) (result : ℕ) (outcome : Network (Unit {0}))
    → IsFresh s protocol_id
    → forget (confirmed s peer protocol_id request channel response result outcome) protocol_id
      ≡ record s {
        next_inbound_id = next_id s.next_inbound_id;
        events = s.events ++ inbound_request peer s.next_inbound_id request ∷ [];
        effects = replied result outcome ∷ responded channel response ∷ s.effects;
      }
unfolding forget
forgotten s peer protocol_id request channel response result outcome fresh =
    rw
      (
        get_first protocol_id s.next_inbound_id s.inbound_protocol_ids,
        remove_first protocol_id s.next_inbound_id s.inbound_protocol_ids fresh.protocol,
        remove_absent s.next_inbound_id s.inbound fresh.id,
        forget,
      )
      refl

finished :
    (s : NetworkDriver) (peer : Bytes) (protocol_id : ℕ) (request : TransferRequest) (channel : ℕ)
    (response : TransferResponse) (result : ℕ) (outcome : Network (Unit {0}))
    → IsFresh s protocol_id
    → finish_inbound
        (awaiting s peer protocol_id request channel response result)
        protocol_id
        outcome
      ≡ record s {
        next_inbound_id = next_id s.next_inbound_id;
        events = s.events ++ inbound_request peer s.next_inbound_id request ∷ [];
        effects = replied result outcome ∷ responded channel response ∷ s.effects;
      }
unfolding finish_inbound
finished s peer protocol_id request channel response result outcome fresh =
    ap (λ (t : NetworkDriver). forget t protocol_id)
      (confirm-confirmed s peer protocol_id request channel response result outcome fresh)
    ∙ forgotten s peer protocol_id request channel response result outcome fresh

ended :
    (s : NetworkDriver) (peer : Bytes) (protocol_id : ℕ) (request : TransferRequest) (channel : ℕ)
    (response : TransferResponse) (result : ℕ) (delivered : Bool)
    → IsFresh s protocol_id
    → handle_transfer_event
        (awaiting s peer protocol_id request channel response result)
        (end_of delivered protocol_id)
      ≡ record s {
        next_inbound_id = next_id s.next_inbound_id;
        events = s.events ++ inbound_request peer s.next_inbound_id request ∷ [];
        effects =
            replied result (outcome_of delivered (err Errors.response))
            ∷ responded channel response
            ∷ s.effects;
      }
unfolding handle_transfer_event
ended s peer protocol_id request channel response result true fresh =
    finished s peer protocol_id request channel response result (ok tt) fresh
ended s peer protocol_id request channel response result false fresh =
    finished s peer protocol_id request channel response result (err Errors.response) fresh

-- With room for its event and ids that are not in use, an inbound request that is answered by its
-- id and accepted by the swarm has its event queued and one response sent on its channel; when the
-- swarm confirms it or reports its failure, the result says which, and the tables are as before.
pub run-exchange :
    (s : NetworkDriver) (peer : Bytes) (protocol_id : ℕ) (request : TransferRequest) (channel : ℕ)
    (response : TransferResponse) (result : ℕ) (answers : Answers) (delivered : Bool)
    → has_room s ≡ true
    → IsFresh s protocol_id
    → answers.sends ≡ true
    → run s (
        swarm_event (transfer (request_received peer protocol_id request channel))
        ∷ commanded (respond s.next_inbound_id response result) answers
        ∷ swarm_event (transfer (end_of delivered protocol_id))
        ∷ [])
      ≡ record s {
        next_inbound_id = next_id s.next_inbound_id;
        events = s.events ++ inbound_request peer s.next_inbound_id request ∷ [];
        effects =
            replied result (outcome_of delivered (err Errors.response))
            ∷ responded channel response
            ∷ s.effects;
      }
unfolding run handle_command handle_swarm_event handle_transfer_event
run-exchange s peer protocol_id request channel response result answers delivered room fresh sends =
    let start = received s peer protocol_id request channel room fresh in
    let middle = sent s peer protocol_id request channel response result fresh in
    let respond_to =
      λ (b : Bool) (t : NetworkDriver). handle_respond t s.next_inbound_id response result b in
    let last = λ (t : NetworkDriver). handle_transfer_event t (end_of delivered protocol_id) in
    ap (λ b. last (respond_to b (handle_inbound_request s peer protocol_id request channel))) sends
    ∙ ap (λ (t : NetworkDriver). last (respond_to true t)) start
    ∙ ap last middle
    ∙ ended s peer protocol_id request channel response result delivered fresh
