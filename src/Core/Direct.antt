-- ===== src/Core/Direct.antt =====
-- crates/core/src/direct.rs: the loop of the direct sender and the two requests of the direct
-- receiver. The `select!` of one turn is a value of `Turn`; the network client, which only carries
-- the responses, is the turn's `delivered`.
pub mod Turns
pub mod SingleUse
pub mod Returns
use envshare.Prelude.{
  ℕ, Bool, true, false, not, ◌&&◌, Option, none, some, List, [], ◌∷◌, ◌++◌, ◌==◌, if◌then◌else◌,
  Bytes, bytes_eq, Result, ok, err, ◌>>=◌,
}
use envshare.Primitives.{Primitives}
use envshare.Cbor.{Cbor}
use envshare.Protocol.Limits.{protocol_version}
use envshare.Protocol.Errors.{
  ProtocolErrorCode, not_found_or_unauthorized, unsupported_version, invalid_message,
  payload_too_large, share_unavailable, share_expired, share_already_claimed, claim_mismatch,
  internal_failure, temporarily_unavailable,
}
use envshare.Protocol.Envelope.{SecretEnvelope}
use envshare.Protocol.Message.{
  TransferRequest, open_request, acknowledge, TransferResponse, offer, completed, error,
  OfferResponse, CompletedResponse,
}
use envshare.Core.Errors.{CoreError, Outcome, network, transfer}
use envshare.Core.Errors
use envshare.Core.Sender.{
  SenderState, consumed, expired, delivery_unknown, failed_closed, SenderActor, handle_timer,
  handle_acknowledgement,
}
use envshare.Core.Sender
use envshare.Core.Offer.{handle_open}
use envshare.Core.Receiver.{ReceiverSession, VerifiedOffer, verify_offer}

pub protocol_error : ProtocolErrorCode → TransferResponse
protocol_error code = error (record { protocol_version = protocol_version; code = code })

unfoldable map_protocol_error : ProtocolErrorCode → CoreError
map_protocol_error not_found_or_unauthorized = Errors.not_found_or_unauthorized
map_protocol_error share_unavailable = Errors.share_unavailable
map_protocol_error share_expired = Errors.share_unavailable
map_protocol_error share_already_claimed = Errors.share_unavailable
map_protocol_error claim_mismatch = Errors.share_unavailable
map_protocol_error temporarily_unavailable = network
map_protocol_error _ = transfer

-- An inbound request and the response that it got.
pub record Exchange : Type 0 where
  pub peer : Bytes
  pub request_id : ℕ
  pub request : TransferRequest
  pub response : TransferResponse

-- `other` stands for the events that `handle_event` ignores.
pub data NetworkEvent : Type 0 where
  inbound_request : Bytes → ℕ → TransferRequest → NetworkEvent
  other : NetworkEvent

-- What `select!` gives at a time `now`; `stopped` is the end of the event stream.
pub data Turn : Type 0 where
  cancelled : Turn
  tick : (now : ℕ) → Turn
  stopped : Turn
  received : (event : NetworkEvent) (now : ℕ) (delivered : Bool) → Turn

unfoldable pub is_terminal : SenderState → Bool
is_terminal consumed = true
is_terminal expired = true
is_terminal delivery_unknown = true
is_terminal failed_closed = true
is_terminal _ = false

pub offer_response : Result ProtocolErrorCode OfferResponse → TransferResponse
unfolding protocol_error
offer_response (ok o) = offer o
offer_response (err code) = protocol_error code

unfoldable pub completed_response : Result ProtocolErrorCode CompletedResponse → TransferResponse
unfolding protocol_error
completed_response (ok c) = completed c
completed_response (err code) = protocol_error code

-- What a turn leaves: the result, if the loop returns, the exchange, and the state.
pub record Turned (S : Type 0) : Type 0 where
  pub outcome : Option (Outcome SenderState)
  pub exchanges : List Exchange
  pub actor : SenderActor
  pub entropy : S

module _ (P : Primitives) (checked_add : ℕ → ℕ → Option ℕ) {S : Type 0}
    (fill : S → ℕ → Option Bytes × S) where
  -- The `match request` of `handle_event`.
  pub answer : SenderActor → S → Bytes → TransferRequest → ℕ → TransferResponse × SenderActor × S
  unfolding offer_response completed_response
  answer a entropy peer (open_request request) now =
      let (result, a, entropy) = handle_open P checked_add fill a peer request now entropy in
      (offer_response result, a, entropy)
  answer a entropy peer (acknowledge acknowledgement) now =
      let (result, a) = handle_acknowledgement a peer acknowledgement in
      (completed_response result, a, entropy)

  -- The check at the end of a turn.
  pub end_turn : SenderActor → S → List Exchange → Turned S
  unfolding is_terminal
  end_turn a entropy exchanges = record {
    outcome = if is_terminal a.state then some (ok a.state) else none;
    exchanges = exchanges;
    actor = a;
    entropy = entropy;
  }

  unfoldable pub take_turn : SenderActor → S → Turn → Turned S
  unfolding answer end_turn
  take_turn a entropy cancelled = record {
    outcome = some (ok a.state);
    exchanges = [];
    actor = a;
    entropy = entropy;
  }
  take_turn a entropy (tick now) = end_turn (handle_timer a now) entropy []
  take_turn a entropy stopped = record {
    outcome = some (err network);
    exchanges = [];
    actor = a;
    entropy = entropy;
  }
  take_turn a entropy (received other now delivered) = end_turn a entropy []
  take_turn a entropy (received (inbound_request peer request_id request) now delivered) =
      let (response, a, entropy) = answer a entropy peer request now in
      let exchanges =
        record { peer = peer; request_id = request_id; request = request; response = response }
        ∷ [] in
      if delivered then end_turn a entropy exchanges else record {
        outcome = some (err network);
        exchanges = exchanges;
        actor = a;
        entropy = entropy;
      }

  -- `DirectSender::run` on the turns that happen; `none` while the loop still waits.
  unfoldable pub run :
      SenderActor → S → List Turn → Option (Outcome SenderState) × List Exchange × SenderActor
  unfolding take_turn
  run a entropy [] = (none, [], a)
  run a entropy (turn ∷ turns) =
      let turned = take_turn a entropy turn in
      let (outcome, exchanges, a') = run turned.actor turned.entropy turns in
      elim turned.outcome [
        | some result ↦ (some result, turned.exchanges, turned.actor)
        | none ↦ (outcome, turned.exchanges ++ exchanges, a')
      ]

  -- `DirectReceiver::receive` after the response arrived.
  unfoldable receive : Cbor → ReceiverSession → TransferResponse → Outcome VerifiedOffer
  unfolding map_protocol_error
  receive C session (offer o) = verify_offer P C session o
  receive C session (error e) = err (map_protocol_error e.code)
  receive C session (completed c) = err transfer

-- `PendingDirectOffer::acknowledge` after the response arrived.
unfoldable pub finish_acknowledge : VerifiedOffer → TransferResponse → Outcome SecretEnvelope
unfolding map_protocol_error
finish_acknowledge v (completed c) =
    if c.protocol_version == protocol_version && bytes_eq c.claim_id v.acknowledgement.claim_id
    then ok v.envelope
    else err transfer
finish_acknowledge v (error e) = err (map_protocol_error e.code)
finish_acknowledge v (offer o) = err transfer
