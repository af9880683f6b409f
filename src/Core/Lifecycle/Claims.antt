-- ===== src/Core/Lifecycle/Claims.antt =====
-- crates/core/src/sender/actor.rs: the claim across operations.
use envshare.Prelude.{ℕ, ◌≡◌, Option, some, Bytes, arith}
use envshare.Primitives.{Primitives}
use envshare.Protocol.Message.{OpenRequest, AcknowledgeRequest}
use envshare.Core.Sender.{
  BoundClaim, SenderActor, wipe_source, close, handle_timer, consume, handle_acknowledgement,
}
use envshare.Core.Offer.{open_in, handle_open}
use envshare.Core.Lifecycle.{IsConsistent, HoldsIn}

pub handle_timer-claim : (a : SenderActor) (now : ℕ) → (handle_timer a now).claim ≡ a.claim
unfolding handle_timer close wipe_source
handle_timer-claim a now = ground arith

pub handle_acknowledgement-claim :
    (a : SenderActor) (peer : Bytes) (request : AcknowledgeRequest)
    → (handle_acknowledgement a peer request).1.claim ≡ a.claim
unfolding handle_acknowledgement consume wipe_source
handle_acknowledgement-claim a peer request = ground arith

module _ (P : Primitives) (checked_add : ℕ → ℕ → Option ℕ) {S : Type 0}
    (fill : S → ℕ → Option Bytes × S) where
  pub handle_open-claim :
      (a : SenderActor) (peer : Bytes) (request : OpenRequest) (now : ℕ) (entropy : S)
      (c : BoundClaim)
      → IsConsistent a
      → a.claim ≡ some c
      → (handle_open P checked_add fill a peer request now entropy).1.claim ≡ some c
  unfolding handle_open open_in close wipe_source IsConsistent HoldsIn
  handle_open-claim a peer request now entropy c h k = ground arith
