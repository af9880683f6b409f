-- ===== src/Core/Direct/Turns.antt =====
-- crates/core/src/direct.rs: one turn of the direct sender.
use envshare.Prelude.{
  ℕ, ◌≡◌, refl, ap, sym, ◌∙◌, inl, inr, Bool, true, false, Option, none, some, All, Bytes,
  Result-cases, Result, ok, err, some-inj, arith,
}
use envshare.Primitives.{Primitives}
use envshare.Protocol.Errors.{ProtocolErrorCode}
use envshare.Protocol.Message.{
  OpenRequest, OfferResponse, TransferRequest, open_request, acknowledge, TransferResponse, offer,
  completed, error,
}
use envshare.Core.Sender.{BoundClaim, SenderActor, handle_acknowledgement}
use envshare.Core.Offer.{handle_open}
use envshare.Core.Direct.{
  Exchange, inbound_request, other, Turn, cancelled, tick, stopped, received, offer_response,
  completed_response, protocol_error, Turned, answer, end_turn, take_turn,
}
use envshare.Core.Lifecycle.{
  IsConsistent, handle_timer-IsConsistent, handle_acknowledgement-IsConsistent,
  handle_open-IsConsistent,
}
use envshare.Core.Lifecycle.Claims.{
  handle_open-claim, handle_timer-claim, handle_acknowledgement-claim,
}
use envshare.Core.Lifecycle.Opens.{Offered, handle_open-Offered}

abbrev is_offer : TransferResponse → Bool
is_offer (offer o) = true
is_offer (completed c) = false
is_offer (error e) = false

-- The exchange discloses nothing.
pub IsSilent : Exchange → Type 0
IsSilent x = is_offer x.response ≡ false

-- An offer in the response is the claim's offer, to the claim's peer and for its nonce.
IsBoundAs : BoundClaim → Exchange → TransferResponse → Type 0
IsBoundAs c x (offer o) =
    (o ≡ c.offer)
    × (x.peer ≡ c.receiver_peer_id)
    × (r : OpenRequest) × (x.request ≡ open_request r)
    × (r.receiver_nonce ≡ c.receiver_nonce)
IsBoundAs c x (completed _) = Unit {0}
IsBoundAs c x (error _) = Unit {0}

pub IsBound : BoundClaim → Exchange → Type 0
IsBound c x = IsBoundAs c x x.response

bound_as :
    (c : BoundClaim) (x : Exchange) (response : TransferResponse)
    → ((o : OfferResponse) → response ≡ offer o → IsBoundAs c x (offer o))
    → IsBoundAs c x response
unfolding IsBoundAs
bound_as c x (offer o) h = h o refl
bound_as c x (completed _) h = tt
bound_as c x (error _) h = tt

silent_as :
    (response : TransferResponse)
    → ((o : OfferResponse) → ¬ response ≡ offer o)
    → is_offer response ≡ false
silent_as (offer o) h = absurd (h o refl)
silent_as (completed c) h = refl
silent_as (error e) h = refl

silent_bound :
    (c : BoundClaim) (x : Exchange) (response : TransferResponse)
    → is_offer response ≡ false
    → IsBoundAs c x response
unfolding IsBoundAs
silent_bound c x (offer o) h = cc
silent_bound c x (completed _) h = tt
silent_bound c x (error _) h = tt

-- A silent exchange is bound to any claim.
pub IsSilent-IsBound : (c : BoundClaim) (x : Exchange) → IsSilent x → IsBound c x
unfolding IsSilent IsBound
IsSilent-IsBound c x h = silent_bound c x x.response h

module _ (P : Primitives) (checked_add : ℕ → ℕ → Option ℕ) {S : Type 0}
    (fill : S → ℕ → Option Bytes × S) where
  abbrev opened :
      SenderActor
      → S
      → Bytes
      → OpenRequest
      → ℕ
      → Result ProtocolErrorCode OfferResponse × SenderActor × S
  opened a entropy peer request now = handle_open P checked_add fill a peer request now entropy

  abbrev turned : SenderActor → S → Turn → Turned S
  turned a entropy turn = take_turn P checked_add fill a entropy turn

  answer-IsConsistent :
      (a : SenderActor) (entropy : S) (peer : Bytes) (request : TransferRequest) (now : ℕ)
      → IsConsistent a
      → IsConsistent (answer P checked_add fill a entropy peer request now).1
  unfolding answer
  answer-IsConsistent a entropy peer (open_request r) now h =
      handle_open-IsConsistent P checked_add fill a peer r now entropy h
  answer-IsConsistent a entropy peer (acknowledge r) now h =
      handle_acknowledgement-IsConsistent a peer r h

  answer-claim :
      (a : SenderActor) (entropy : S) (peer : Bytes) (request : TransferRequest) (now : ℕ)
      (c : BoundClaim)
      → IsConsistent a
      → a.claim ≡ some c
      → (answer P checked_add fill a entropy peer request now).1.claim ≡ some c
  unfolding answer
  answer-claim a entropy peer (open_request r) now c h k =
      handle_open-claim P checked_add fill a peer r now entropy c h k
  answer-claim a entropy peer (acknowledge r) now c h k = handle_acknowledgement-claim a peer r ∙ k

  offer_response-inj :
      (result : Result ProtocolErrorCode OfferResponse) (o : OfferResponse)
      → offer_response result ≡ offer o
      → result ≡ ok o
  unfolding offer_response protocol_error
  offer_response-inj (ok o') o h = cc
  offer_response-inj (err e) o h = cc

  -- An answer that is an offer.
  answer-Offered :
      (a : SenderActor) (entropy : S) (peer : Bytes) (request : TransferRequest) (now : ℕ)
      (o : OfferResponse)
      → (answer P checked_add fill a entropy peer request now).0 ≡ offer o
      → (r : OpenRequest) × (request ≡ open_request r)
        × Offered P checked_add fill a peer r now o
            (answer P checked_add fill a entropy peer request now).1
  unfolding answer completed_response protocol_error
  answer-Offered a entropy peer (open_request r) now o h = (
    r,
    refl,
    handle_open-Offered P checked_add fill a peer r now entropy o
        (offer_response-inj (opened a entropy peer r now).0 o h),
  )
  answer-Offered a entropy peer (acknowledge r) now o h =
      elim (Result-cases (handle_acknowledgement a peer r).0) [
        | inl (c, q) ↦ ground (arith, q, h)
        | inr (e, q) ↦ ground (arith, q, h)
      ]

  pub turn-IsConsistent :
      (a : SenderActor) (entropy : S) (turn : Turn)
      → IsConsistent a
      → IsConsistent (turned a entropy turn).actor
  unfolding take_turn end_turn
  turn-IsConsistent a entropy cancelled h = h
  turn-IsConsistent a entropy (tick now) h = handle_timer-IsConsistent a now h
  turn-IsConsistent a entropy stopped h = h
  turn-IsConsistent a entropy (received other now delivered) h = h
  turn-IsConsistent a entropy (received (inbound_request peer id request) now true) h =
      answer-IsConsistent a entropy peer request now h
  turn-IsConsistent a entropy (received (inbound_request peer id request) now false) h =
      answer-IsConsistent a entropy peer request now h

  pub turn-claim :
      (a : SenderActor) (entropy : S) (turn : Turn) (c : BoundClaim)
      → IsConsistent a
      → a.claim ≡ some c
      → (turned a entropy turn).actor.claim ≡ some c
  unfolding take_turn end_turn
  turn-claim a entropy cancelled c h k = k
  turn-claim a entropy (tick now) c h k = handle_timer-claim a now ∙ k
  turn-claim a entropy stopped c h k = k
  turn-claim a entropy (received other now delivered) c h k = k
  turn-claim a entropy (received (inbound_request peer id request) now true) c h k =
      answer-claim a entropy peer request now c h k
  turn-claim a entropy (received (inbound_request peer id request) now false) c h k =
      answer-claim a entropy peer request now c h k

  abbrev exchange : SenderActor → S → Bytes → ℕ → TransferRequest → ℕ → Exchange
  exchange a entropy peer id request now = record {
    peer = peer;
    request_id = id;
    request = request;
    response = (answer P checked_add fill a entropy peer request now).0;
  }

  exchange-IsBound :
      (a : SenderActor) (entropy : S) (peer : Bytes) (id : ℕ) (request : TransferRequest) (now : ℕ)
      (c : BoundClaim)
      → (answer P checked_add fill a entropy peer request now).1.claim ≡ some c
      → IsBound c (exchange a entropy peer id request now)
  unfolding IsBound IsBoundAs
  exchange-IsBound a entropy peer id request now c k =
      bound_as c (exchange a entropy peer id request now)
        (answer P checked_add fill a entropy peer request now).0
        (λ o q.
          let (r, e, offered) = answer-Offered a entropy peer request now o q in
          let same = some-inj (sym offered.claim_eq ∙ k) in
          (
            offered.offer_eq ∙ ap (λ x. x.offer) same,
            offered.peer_eq ∙ ap (λ x. x.receiver_peer_id) same,
            r,
            e,
            offered.nonce_eq ∙ ap (λ x. x.receiver_nonce) same,
          ))

  exchange-IsSilent :
      (a : SenderActor) (entropy : S) (peer : Bytes) (id : ℕ) (request : TransferRequest) (now : ℕ)
      → (answer P checked_add fill a entropy peer request now).1.claim ≡ none
      → IsSilent (exchange a entropy peer id request now)
  unfolding IsSilent
  exchange-IsSilent a entropy peer id request now k =
      silent_as (answer P checked_add fill a entropy peer request now).0 (λ o q.
        let (r, e, offered) = answer-Offered a entropy peer request now o q in
        ground (arith, k, offered.claim_eq))

  pub turn-IsBound :
      (a : SenderActor) (entropy : S) (turn : Turn) (c : BoundClaim)
      → (turned a entropy turn).actor.claim ≡ some c
      → All (IsBound c) (turned a entropy turn).exchanges
  unfolding take_turn end_turn
  turn-IsBound a entropy cancelled c k = tt
  turn-IsBound a entropy (tick now) c k = tt
  turn-IsBound a entropy stopped c k = tt
  turn-IsBound a entropy (received other now delivered) c k = tt
  turn-IsBound a entropy (received (inbound_request peer id request) now true) c k =
      (exchange-IsBound a entropy peer id request now c k, tt)
  turn-IsBound a entropy (received (inbound_request peer id request) now false) c k =
      (exchange-IsBound a entropy peer id request now c k, tt)

  pub turn-IsSilent :
      (a : SenderActor) (entropy : S) (turn : Turn)
      → (turned a entropy turn).actor.claim ≡ none
      → All IsSilent (turned a entropy turn).exchanges
  unfolding take_turn end_turn
  turn-IsSilent a entropy cancelled k = tt
  turn-IsSilent a entropy (tick now) k = tt
  turn-IsSilent a entropy stopped k = tt
  turn-IsSilent a entropy (received other now delivered) k = tt
  turn-IsSilent a entropy (received (inbound_request peer id request) now true) k =
      (exchange-IsSilent a entropy peer id request now k, tt)
  turn-IsSilent a entropy (received (inbound_request peer id request) now false) k =
      (exchange-IsSilent a entropy peer id request now k, tt)
