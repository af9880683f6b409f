-- ===== src/Core/Lifecycle.antt =====
-- crates/core/src/sender/actor.rs: what the actor holds in each state, under every operation.
pub mod Answers
pub mod Claims
pub mod Opens
use envshare.Prelude.{
  ℕ, ◌≡◌, refl, ap, sym, subst, ◌∙◌, ◌⊎◌, inl, inr, Bool, true, false, not, ◌&&◌, ◌||◌, Option,
  none, some, leb, ltb, ◌==◌, if◌then◌else◌, is_empty, length, Bytes, Bool-cases, Option-cases,
  bytes_eq, Result, ok, err, ◌>>=◌, ◌>>◌, guard, ok_or, map_err, guard-bind-eq-ok, >>=-eq-ok,
  ok_or-eq-ok, ok-inj, arith,
}
use envshare.Primitives.{Primitives}
use envshare.Cbor.{Cbor}
use envshare.Protocol.Limits.{protocol_version}
use envshare.Protocol.Errors.{ProtocolErrorCode, share_unavailable}
use envshare.Protocol.Envelope.{SecretEnvelope}
use envshare.Protocol.Message.{OpenRequest, OfferResponse, AcknowledgeRequest, CompletedResponse}
use envshare.Crypto.Types.{DerivedRoot}
use envshare.Core.Errors.{Outcome}
use envshare.Core.Sender.{
  SenderState, available, preparing_offer, disclosed, consumed, expired, delivery_unknown,
  failed_closed, BoundClaim, SenderActor, wipe_source, close, is_overdue, handle_timer, consume,
  check_acknowledgement, handle_acknowledgement, resume_offer, authenticates_open,
}
use envshare.Core.Offer.{
  new, Prepared, Draws, build_claim, draw, prepare_offer, claim_offer, open_in, handle_open,
}

abbrev is_some {ℓ} : {A : Type ℓ} → Option A → Bool
is_some none = false
is_some (some a) = true

-- The root keys and the encoded envelope are in memory.
abbrev HasSource : SenderActor → Type 0
HasSource a = (is_some a.root ≡ true) × (is_some a.encoded_envelope ≡ true)

-- They are wiped.
abbrev pub IsWiped : SenderActor → Type 0
IsWiped a = (a.root ≡ none) × (a.encoded_envelope ≡ none)

abbrev HasClaim : SenderActor → Type 0
HasClaim a = is_some a.claim ≡ true

-- What the actor holds in each state; `preparing_offer` is never left behind by an operation.
pub HoldsIn : SenderState → SenderActor → Type 0
HoldsIn available a = HasSource a × (a.claim ≡ none)
HoldsIn preparing_offer a = ⊥
HoldsIn disclosed a = HasSource a × HasClaim a
HoldsIn consumed a = IsWiped a × HasClaim a
HoldsIn expired a = IsWiped a × (a.claim ≡ none)
HoldsIn delivery_unknown a = IsWiped a × HasClaim a
HoldsIn failed_closed a = IsWiped a × (a.claim ≡ none)

pub IsConsistent : SenderActor → Type 0
IsConsistent a = HoldsIn a.state a

-- An actor that `new` makes is available, holds the root keys and the envelope, and has no claim.
pub new-IsConsistent :
    (C : Cbor) (root : DerivedRoot) (network_id sender_peer_id : Bytes) (envelope : SecretEnvelope)
    (deadline resume : ℕ) (a : SenderActor)
    → new C root network_id sender_peer_id envelope deadline resume ≡ ok a
    → IsConsistent a × (a.state ≡ available)
unfolding new IsConsistent HoldsIn
new-IsConsistent C root network_id sender_peer_id envelope deadline resume a h = ground arith

pub handle_timer-IsConsistent :
    (a : SenderActor) (now : ℕ) → IsConsistent a → IsConsistent (handle_timer a now)
unfolding handle_timer close wipe_source is_overdue IsConsistent HoldsIn
handle_timer-IsConsistent a now h = ground arith

pub handle_acknowledgement-IsConsistent :
    (a : SenderActor) (peer : Bytes) (request : AcknowledgeRequest)
    → IsConsistent a
    → IsConsistent (handle_acknowledgement a peer request).1
unfolding handle_acknowledgement consume wipe_source IsConsistent HoldsIn
handle_acknowledgement-IsConsistent a peer request h = ground arith

module _ (P : Primitives) (checked_add : ℕ → ℕ → Option ℕ) {S : Type 0}
    (fill : S → ℕ → Option Bytes × S) where
  open_in-IsConsistent :
      (a : SenderActor) (peer : Bytes) (request : OpenRequest) (now : ℕ) (entropy : S)
      → IsConsistent a
      → IsConsistent (open_in P checked_add fill a.state a peer request now entropy).1
  unfolding open_in claim_offer close wipe_source IsConsistent HoldsIn prepare_offer
  open_in-IsConsistent a peer request now entropy h = ground arith

  -- `handle_open` keeps what the actor holds in each state: the root keys and the envelope while it
  -- is available or disclosed and not in a terminal state, a claim once it was disclosed, and it
  -- never leaves the actor preparing an offer.
  pub handle_open-IsConsistent :
      (a : SenderActor) (peer : Bytes) (request : OpenRequest) (now : ℕ) (entropy : S)
      → IsConsistent a
      → IsConsistent (handle_open P checked_add fill a peer request now entropy).1
  unfolding handle_open
  handle_open-IsConsistent a peer request now entropy h =
      ground (arith, open_in-IsConsistent a peer request now entropy h)
