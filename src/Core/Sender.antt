-- ===== src/Core/Sender.antt =====
-- crates/core/src/sender/actor.rs, state.rs and entropy.rs: the actor of one single-use share. A
-- method returns the new actor; an `Instant` is a number of its clock's units; `checked_add` of an
-- `Instant`, the cryptographic crates, the CBOR codec and the entropy source are parameters.
use envshare.Prelude.{
  ℕ, Bool, true, false, ◌&&◌, Option, none, some, leb, ◌==◌, if◌then◌else◌, Bytes, bytes_eq, Result,
  ok, err, ◌>>=◌, ◌>>◌, guard, ok_or,
}
use envshare.Primitives.{Primitives}
use envshare.Protocol.Limits.{protocol_version}
use envshare.Protocol.Errors.{
  ProtocolErrorCode, unsupported_version, share_unavailable, share_already_claimed, claim_mismatch,
}
use envshare.Protocol.Message.{OpenRequest, OfferResponse, AcknowledgeRequest, CompletedResponse}
use envshare.Crypto.Types.{DerivedRoot, PeerContext, verifies}
use envshare.Crypto.Proof.{open_proof}

pub data SenderState : Type 0 where
  available preparing_offer disclosed consumed expired delivery_unknown failed_closed : SenderState

pub record BoundClaim : Type 0 where
  pub receiver_peer_id : Bytes
  pub receiver_nonce : Bytes
  pub claim_id : Bytes
  pub digest : Bytes
  pub expected_acknowledgement : Bytes
  pub offer : OfferResponse
  pub resume_deadline : ℕ

pub record SenderActor : Type 0 where
  pub state : SenderState
  pub root : Option DerivedRoot
  pub room_id : Bytes
  pub network_id : Bytes
  pub sender_peer_id : Bytes
  pub encoded_envelope : Option Bytes
  pub content_type : ℕ
  pub plaintext_length : ℕ
  pub expires_at_unix_ms : ℕ
  pub available_deadline : ℕ
  pub resume_duration : ℕ
  pub claim : Option BoundClaim

unfoldable pub wipe_source : SenderActor → SenderActor
wipe_source a = record a { root = none; encoded_envelope = none }

unfoldable pub close : SenderActor → SenderState → SenderActor
unfolding wipe_source
close a state = wipe_source (record a { state = state })

unfoldable pub context : SenderActor → Bytes → PeerContext
context a receiver_peer_id = record {
  network_id = a.network_id;
  room_id = a.room_id;
  sender_peer_id = a.sender_peer_id;
  receiver_peer_id = receiver_peer_id;
}

-- `is_some_and(|claim| now >= claim.resume_deadline)`
unfoldable pub is_overdue : Option BoundClaim → ℕ → Bool
is_overdue none now = false
is_overdue (some c) now = leb c.resume_deadline now

unfoldable pub handle_timer : SenderActor → ℕ → SenderActor
unfolding close is_overdue
handle_timer a now = elim a.state [
  | available ↦ if leb a.available_deadline now then close a expired else a
  | disclosed ↦ if is_overdue a.claim now then close a delivery_unknown else a
  | other ↦ a
]

unfoldable pub is_same_receiver : BoundClaim → Bytes → OpenRequest → Bool
is_same_receiver claim receiver_peer_id request =
    bytes_eq receiver_peer_id claim.receiver_peer_id
    && bytes_eq request.receiver_nonce claim.receiver_nonce

unfoldable pub resume_offer :
    SenderActor → Bytes → OpenRequest → Result ProtocolErrorCode OfferResponse
resume_offer a receiver_peer_id request = do
  claim ← ok_or a.claim share_unavailable
  if is_same_receiver claim receiver_peer_id request
      then ok claim.offer
      else err share_already_claimed

-- `matches!(self.state, Disclosed | Consumed)`
unfoldable pub may_acknowledge : SenderState → Bool
may_acknowledge disclosed = true
may_acknowledge consumed = true
may_acknowledge _ = false

unfoldable pub matches_claim : BoundClaim → Bytes → AcknowledgeRequest → Bool
unfolding verifies
matches_claim claim receiver_peer_id request =
    bytes_eq receiver_peer_id claim.receiver_peer_id
    && bytes_eq request.claim_id claim.claim_id
    && bytes_eq request.ciphertext_digest claim.digest
    && verifies claim.expected_acknowledgement request.acknowledgement_proof

-- The checks of `handle_acknowledgement`, up to the response.
unfoldable pub check_acknowledgement :
    SenderActor → Bytes → AcknowledgeRequest → Result ProtocolErrorCode CompletedResponse
unfolding may_acknowledge matches_claim
check_acknowledgement a receiver_peer_id request = do
  guard (request.protocol_version == protocol_version) unsupported_version
  guard (may_acknowledge a.state) share_unavailable
  claim ← ok_or a.claim share_unavailable
  guard (matches_claim claim receiver_peer_id request) claim_mismatch
  ok (record { protocol_version = protocol_version; claim_id = request.claim_id })

unfoldable pub consume : SenderActor → SenderActor
unfolding wipe_source
consume a = elim a.state [ disclosed ↦ wipe_source (record a { state = consumed }) | other ↦ a ]

unfoldable pub handle_acknowledgement :
    SenderActor
    → Bytes
    → AcknowledgeRequest
    → Result ProtocolErrorCode CompletedResponse × SenderActor
unfolding check_acknowledgement consume
handle_acknowledgement a receiver_peer_id request =
    elim (check_acknowledgement a receiver_peer_id request) [
      | ok completed ↦ (ok completed, consume a)
      | err e ↦ (err e, a)
    ]

module _ (P : Primitives) where
  unfoldable pub authenticates_open : SenderActor → Bytes → OpenRequest → Bool
  unfolding verifies context
  authenticates_open a receiver_peer_id request = elim a.root [
    | none ↦ false
    | some root ↦
        bytes_eq request.room_id a.room_id
        && (elim (open_proof P root.authentication_key (context a receiver_peer_id)
            request.receiver_nonce) [
              | ok expected ↦ verifies expected request.receiver_proof
              | err e ↦ false
            ])
  ]
