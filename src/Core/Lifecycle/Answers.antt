-- ===== src/Core/Lifecycle/Answers.antt =====
-- crates/core/src/sender/actor.rs: which answer each operation gives, and what it changes.
use envshare.Prelude.{
  ◌≡◌, ap₂, sym, ◌∙◌, ◌⊎◌, inl, inr, ◌↔◌, true, some, Bytes, bytes_eq_iff, Option-cases, ok, err,
  arith,
}
use envshare.Protocol.Limits.{protocol_version}
use envshare.Protocol.Errors.{ProtocolErrorCode}
use envshare.Protocol.Message.{AcknowledgeRequest, CompletedResponse}
use envshare.Crypto.Types.{verifies}
use envshare.Core.Sender.{
  SenderState, disclosed, consumed, BoundClaim, SenderActor, wipe_source, consume,
  check_acknowledgement, handle_acknowledgement, matches_claim, may_acknowledge,
}
use envshare.Core.Lifecycle.{IsConsistent, HoldsIn, IsWiped}

-- The actor holds this claim, and the request acknowledges it.
pub record Acknowledges (a : SenderActor) (peer : Bytes) (request : AcknowledgeRequest)
    : Type 0 where
  pub version : request.protocol_version ≡ protocol_version
  pub state : (a.state ≡ disclosed) ⊎ (a.state ≡ consumed)
  pub claim : BoundClaim
  pub claim_eq : a.claim ≡ some claim
  pub peer_eq : peer ≡ claim.receiver_peer_id
  pub claim_id_eq : request.claim_id ≡ claim.claim_id
  pub digest_eq : request.ciphertext_digest ≡ claim.digest
  pub proof_eq : request.acknowledgement_proof ≡ claim.expected_acknowledgement

matches_claim_iff :
    (claim : BoundClaim) (peer : Bytes) (request : AcknowledgeRequest)
    → (matches_claim claim peer request ≡ true)
      ↔ (peer ≡ claim.receiver_peer_id)
        × (request.claim_id ≡ claim.claim_id)
        × (request.ciphertext_digest ≡ claim.digest)
        × (claim.expected_acknowledgement ≡ request.acknowledgement_proof)
unfolding matches_claim verifies
matches_claim_iff claim peer request = ground (
  arith,
  bytes_eq_iff peer claim.receiver_peer_id,
  bytes_eq_iff request.claim_id claim.claim_id,
  bytes_eq_iff request.ciphertext_digest claim.digest,
  bytes_eq_iff claim.expected_acknowledgement request.acknowledgement_proof,
)

acknowledged :
    (a : SenderActor) (peer : Bytes) (request : AcknowledgeRequest)
    → Acknowledges a peer request
    → check_acknowledgement a peer request
      ≡ ok (record { protocol_version = protocol_version; claim_id = request.claim_id })
unfolding check_acknowledgement may_acknowledge
acknowledged a peer request h = ground (
  arith,
  matches_claim_iff h.claim peer request,
  h.state,
  h.version,
  h.claim_eq,
  h.peer_eq,
  h.claim_id_eq,
  h.digest_eq,
  h.proof_eq,
)

may_acknowledge_iff :
    (s : SenderState) → may_acknowledge s ≡ true → (s ≡ disclosed) ⊎ (s ≡ consumed)
unfolding may_acknowledge
may_acknowledge_iff s h = ground arith

checks :
    (a : SenderActor) (peer : Bytes) (request : AcknowledgeRequest) (c : CompletedResponse)
    → check_acknowledgement a peer request ≡ ok c
    → (claim : BoundClaim) × (a.claim ≡ some claim)
      × (request.protocol_version ≡ protocol_version)
      × (may_acknowledge a.state ≡ true)
      × (matches_claim claim peer request ≡ true)
unfolding check_acknowledgement
checks a peer request c h = elim (Option-cases a.claim) [
  | inl n ↦ ground (arith, n, h)
  | inr (claim, e) ↦ (claim, e, ground (arith, e, h), ground (arith, e, h), ground (arith, e, h))
]

acknowledges :
    (a : SenderActor) (peer : Bytes) (request : AcknowledgeRequest) (c : CompletedResponse)
    → check_acknowledgement a peer request ≡ ok c
    → Acknowledges a peer request
acknowledges a peer request c h =
    let (claim, e, v, s, m) = checks a peer request c h in
    let (p, i, d, k) = (matches_claim_iff claim peer request).0 m in
    record {
      version = v;
      state = may_acknowledge_iff a.state s;
      claim = claim;
      claim_eq = e;
      peer_eq = p;
      claim_id_eq = i;
      digest_eq = d;
      proof_eq = sym k;
    }

handle_acknowledgement-check :
    (a : SenderActor) (peer : Bytes) (request : AcknowledgeRequest)
    → (handle_acknowledgement a peer request).0 ≡ check_acknowledgement a peer request
unfolding handle_acknowledgement
handle_acknowledgement-check a peer request = ground arith

consumes :
    (a : SenderActor) (peer : Bytes) (request : AcknowledgeRequest)
    → Acknowledges a peer request
    → (handle_acknowledgement a peer request).1 ≡ consume a
unfolding handle_acknowledgement
consumes a peer request h = ground (arith, acknowledged a peer request h)

consume-state :
    (a : SenderActor) → (a.state ≡ disclosed) ⊎ (a.state ≡ consumed) → (consume a).state ≡ consumed
unfolding consume wipe_source
consume-state a h = ground arith

consume-claim : (a : SenderActor) → (consume a).claim ≡ a.claim
unfolding consume wipe_source
consume-claim a = ground arith

consume-IsWiped :
    (a : SenderActor)
    → (a.state ≡ disclosed) ⊎ (a.state ≡ consumed)
    → IsConsistent a
    → IsWiped (consume a)
unfolding consume wipe_source IsConsistent HoldsIn
consume-IsWiped a h k = ground arith

consume_idempotent : (a : SenderActor) → consume (consume a) ≡ consume a
unfolding consume wipe_source
consume_idempotent a = ground arith

consume-Acknowledges :
    (a : SenderActor) (peer : Bytes) (request : AcknowledgeRequest)
    → Acknowledges a peer request
    → Acknowledges (consume a) peer request
consume-Acknowledges a peer request h = record {
  version = h.version;
  state = inr (consume-state a h.state);
  claim = h.claim;
  claim_eq = consume-claim a ∙ h.claim_eq;
  peer_eq = h.peer_eq;
  claim_id_eq = h.claim_id_eq;
  digest_eq = h.digest_eq;
  proof_eq = h.proof_eq;
}

-- `handle_acknowledgement` answers with the completed claim exactly when the actor is disclosed or
-- consumed and holds a claim, and the request has this version, the peer of the claim, its id, its
-- ciphertext digest and the expected proof.
pub handle_acknowledgement_iff :
    (a : SenderActor) (peer : Bytes) (request : AcknowledgeRequest)
    → ((handle_acknowledgement a peer request).0
        ≡ ok (record { protocol_version = protocol_version; claim_id = request.claim_id }))
      ↔ Acknowledges a peer request
handle_acknowledgement_iff a peer request = (
  λ h. acknowledges a peer request _ (sym (handle_acknowledgement-check a peer request) ∙ h),
  λ h. handle_acknowledgement-check a peer request ∙ acknowledged a peer request h,
)

-- An acknowledgement that a consistent actor accepts leaves it consumed, with its claim, and with
-- the root keys and the envelope wiped; the same acknowledgement again gets the same answer and
-- changes nothing.
pub handle_acknowledgement-consumes :
    (a : SenderActor) (peer : Bytes) (request : AcknowledgeRequest)
    → IsConsistent a
    → Acknowledges a peer request
    → let (answer, a') = handle_acknowledgement a peer request in
      (a'.state ≡ consumed)
      × (a'.claim ≡ a.claim)
      × IsWiped a'
      × (handle_acknowledgement a' peer request ≡ (answer, a'))
handle_acknowledgement-consumes a peer request h k = rw (consumes a peer request k) (
  consume-state a k.state,
  consume-claim a,
  consume-IsWiped a k.state h,
  ap₂ (λ x y. (x, y))
      ((handle_acknowledgement_iff (consume a) peer request).1
          (consume-Acknowledges a peer request k)
        ∙ sym ((handle_acknowledgement_iff a peer request).1 k))
      (consumes (consume a) peer request (consume-Acknowledges a peer request k)
        ∙ consume_idempotent a),
)

-- A refused acknowledgement changes nothing.
handle_acknowledgement-refused :
    (a : SenderActor) (peer : Bytes) (request : AcknowledgeRequest) (e : ProtocolErrorCode)
    → (handle_acknowledgement a peer request).0 ≡ err e
    → (handle_acknowledgement a peer request).1 ≡ a
unfolding handle_acknowledgement
handle_acknowledgement-refused a peer request e h = ground arith
