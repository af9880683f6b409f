-- ===== src/Network/Driver/Tests.antt =====
-- Runs and instances for crates/network/src/driver.rs.
use envshare.Prelude.{◌≤◌, ◌≡◌, refl, true, false, List, [], ◌∷◌, bytes_of, replicate, ok, err}
use envshare.Protocol.Message.{TransferRequest, open_request, TransferResponse, error}
use envshare.Protocol.Errors.{share_unavailable}
use envshare.Node.Maps.{contains_key, get, insert}
use envshare.Network.Errors
use envshare.Network.Driver.{
  NetworkDriver, respond, request_of, responded, replied, answered, requested, inbound_request,
  Answers, default, new, has_room, validate, protocol_of,
}
use envshare.Network.Driver.Turns.{
  request_received, response_sent, response_received, inbound_failure, transfer, Turn, commanded,
  swarm_event, run, handle_command, handle_swarm_event, handle_transfer_event, busy_response,
  handle_inbound_request,
}
use envshare.Network.Driver.Accounting.{
  count_responded, count_results, count_channels, count_handed,
}
use envshare.Network.Driver.Answering.{run-AnswersOnce}
use envshare.Network.Driver.Exchange.{IsFresh, run-exchange, handle_inbound_request_refused}

abbrev opening : TransferRequest
opening = open_request (record {
  protocol_version = 1;
  room_id = replicate 16 1;
  receiver_nonce = replicate 32 2;
  receiver_proof = replicate 32 3;
})

abbrev response : TransferResponse
response = error (record { protocol_version = 1; code = share_unavailable })

abbrev answers : Answers
answers = record {
  listens = λ address. true;
  accepts_namespace = λ namespace. true;
  dials = true;
  sends = true;
  registers = true;
  request_id = 5;
}

abbrev idle : NetworkDriver
idle = record {
  outbound = [];
  inbound = [];
  inbound_protocol_ids = [];
  inbound_confirmations = [];
  next_inbound_id = 1;
  max_discovery_results = 32;
  lan = false;
  events = [];
  event_capacity = 32;
  effects = [];
}

new_run : new default true true ≡ ok idle
unfolding new validate
new_run = refl

-- A request comes in and is answered, and a request goes out and is answered.
abbrev turns : List Turn
turns =
    swarm_event (transfer (request_received (bytes_of "peer") 3 opening 7))
    ∷ commanded (respond 1 response 9) answers
    ∷ commanded (respond 1 response 10) answers
    ∷ swarm_event (transfer (response_sent 3))
    ∷ commanded (request_of (bytes_of "peer") [] opening 11) answers
    ∷ swarm_event (transfer (response_received 5 response))
    ∷ swarm_event (transfer (response_received 5 response))
    ∷ []

-- The second response finds no channel, and the second answer no result.
turns-run :
    (run idle turns).effects
    ≡ answered 11 (ok response)
      ∷ requested 5 (bytes_of "peer") opening
      ∷ replied 9 (ok tt)
      ∷ replied 10 (err Errors.response)
      ∷ responded 7 response
      ∷ []
unfolding run handle_command handle_swarm_event handle_transfer_event get insert protocol_of
turns-run = refl

run-AnswersOnce_example :
    (count_responded 7 (run idle turns).effects ≤ count_channels 7 turns)
    × (count_results 7 (run idle turns).effects ≤ count_handed 7 turns)
run-AnswersOnce_example = run-AnswersOnce default true true idle turns 7 new_run

idle-IsFresh : IsFresh idle 3
unfolding contains_key
idle-IsFresh = record { id = refl; protocol = refl; confirmation = refl }

run-exchange_example :
    run idle (
      swarm_event (transfer (request_received (bytes_of "peer") 3 opening 7))
      ∷ commanded (respond 1 response 9) answers
      ∷ swarm_event (transfer (inbound_failure 3))
      ∷ [])
    ≡ record idle {
      next_inbound_id = 2;
      events = inbound_request (bytes_of "peer") 1 opening ∷ [];
      effects = replied 9 (err Errors.response) ∷ responded 7 response ∷ [];
    }
unfolding has_room
run-exchange_example =
    run-exchange idle (bytes_of "peer") 3 opening 7 response 9 answers false refl idle-IsFresh refl

abbrev full : NetworkDriver
full = record idle { event_capacity = 0 }

full-IsFresh : IsFresh full 3
unfolding contains_key
full-IsFresh = record { id = refl; protocol = refl; confirmation = refl }

handle_inbound_request_refused_example :
    handle_inbound_request full (bytes_of "peer") 3 opening 7
    ≡ record full { next_inbound_id = 2; effects = responded 7 busy_response ∷ [] }
unfolding has_room
handle_inbound_request_refused_example =
    handle_inbound_request_refused full (bytes_of "peer") 3 opening 7 refl full-IsFresh
