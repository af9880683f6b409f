-- ===== src/Core/Offer.antt =====
-- crates/core/src/sender/actor.rs: `new`, `prepare_offer` and `handle_open`.
use envshare.Prelude.{
  ℕ, ◌^◌, not, ◌||◌, Option, none, some, leb, ltb, ◌==◌, if◌then◌else◌, is_empty, length, Bytes,
  Result, ok, err, ◌>>=◌, ◌>>◌, guard, ok_or, map_err,
}
use envshare.Primitives.{Primitives}
use envshare.Cbor.{Cbor}
use envshare.Protocol.Limits.{protocol_version}
use envshare.Protocol.Errors.{
  ProtocolErrorCode, not_found_or_unauthorized, unsupported_version, share_unavailable,
  share_expired, internal_failure, temporarily_unavailable,
}
use envshare.Protocol.Envelope.{SecretEnvelope, content_type_as_u8}
use envshare.Protocol.Envelope
use envshare.Protocol.Message.{OpenRequest, OfferResponse}
use envshare.Crypto.Types.{DerivedRoot, PayloadAadInput, OfferProofInput}
use envshare.Crypto.Kdf.{derive_session}
use envshare.Crypto.Proof.{offer_proof, acknowledgement_proof}
use envshare.Crypto.Aead.{payload_associated_data, encrypt_payload, ciphertext_digest}
use envshare.Core.Errors.{Outcome, configuration, internal, transfer}
use envshare.Core.Sender.{
  SenderState, available, preparing_offer, disclosed, expired, delivery_unknown, failed_closed,
  BoundClaim, SenderActor, close, context, is_overdue, resume_offer, authenticates_open,
}

-- `SenderActor::new`
unfoldable pub new :
    Cbor → DerivedRoot → Bytes → Bytes → SecretEnvelope → ℕ → ℕ → Outcome SenderActor
new C root network_id sender_peer_id envelope available_deadline resume_duration = do
  guard (not (is_empty sender_peer_id || is_empty network_id)) configuration
  guard (ltb (length envelope.payload) (2 ^ 32)) internal
  encoded_envelope ← map_err (Envelope.encode C envelope) transfer
  ok (record {
    state = available;
    root = some root;
    room_id = root.room_id;
    network_id = network_id;
    sender_peer_id = sender_peer_id;
    encoded_envelope = some encoded_envelope;
    content_type = content_type_as_u8 envelope.content_type;
    plaintext_length = length envelope.payload;
    expires_at_unix_ms = envelope.expires_at_unix_ms;
    available_deadline = available_deadline;
    resume_duration = resume_duration;
    claim = none;
  })

-- `Result<_, ()>`
abbrev pub Prepared {ℓ} : Type ℓ → Type ℓ
Prepared A = Result (Unit {0}) A

-- The three values that `prepare_offer` draws.
pub record Draws : Type 0 where
  pub sender_nonce : Bytes
  pub claim_id : Bytes
  pub aead_nonce : Bytes

abbrev pub proof_input : SenderActor → Bytes → OpenRequest → Draws → Bytes → OfferProofInput
proof_input a receiver_peer_id request d digest = record {
  context = context a receiver_peer_id;
  receiver_nonce = request.receiver_nonce;
  sender_nonce = d.sender_nonce;
  claim_id = d.claim_id;
  expires_at_unix_ms = a.expires_at_unix_ms;
  content_type = a.content_type;
  plaintext_length = a.plaintext_length;
  aead_nonce = d.aead_nonce;
  ciphertext_digest = digest;
}

abbrev pub aad_input : SenderActor → Bytes → OpenRequest → Draws → PayloadAadInput
aad_input a receiver_peer_id request d = record {
  context = context a receiver_peer_id;
  receiver_nonce = request.receiver_nonce;
  sender_nonce = d.sender_nonce;
  claim_id = d.claim_id;
  expires_at_unix_ms = a.expires_at_unix_ms;
  content_type = a.content_type;
  plaintext_length = a.plaintext_length;
}

module _ (P : Primitives) (checked_add : ℕ → ℕ → Option ℕ) where
  -- `prepare_offer` after the draws; the claim holds the offer.
  unfoldable pub build_claim :
      SenderActor → DerivedRoot → Bytes → Bytes → OpenRequest → ℕ → Draws → Prepared BoundClaim
  build_claim a root plaintext receiver_peer_id request now d = do
    session ←
        map_err
          (derive_session P root.session_base_key (context a receiver_peer_id)
            request.receiver_nonce d.sender_nonce d.claim_id)
          tt
    aad ← map_err (payload_associated_data (aad_input a receiver_peer_id request d)) tt
    ciphertext ← map_err (encrypt_payload P session.payload_key d.aead_nonce plaintext aad) tt
    let digest = ciphertext_digest P d.aead_nonce ciphertext
    sender_proof ←
        map_err
          (offer_proof P root.authentication_key (proof_input a receiver_peer_id request d digest))
          tt
    expected_acknowledgement ←
        map_err
          (acknowledgement_proof P session.acknowledgement_key (context a receiver_peer_id)
            d.claim_id digest)
          tt
    resume_deadline ← ok_or (checked_add now a.resume_duration) tt
    ok (record {
      receiver_peer_id = receiver_peer_id;
      receiver_nonce = request.receiver_nonce;
      claim_id = d.claim_id;
      digest = digest;
      expected_acknowledgement = expected_acknowledgement;
      offer = record {
        protocol_version = protocol_version;
        claim_id = d.claim_id;
        sender_nonce = d.sender_nonce;
        aead_nonce = d.aead_nonce;
        expires_at_unix_ms = a.expires_at_unix_ms;
        content_type = a.content_type;
        plaintext_length = a.plaintext_length;
        ciphertext = ciphertext;
        ciphertext_digest = digest;
        sender_proof = sender_proof;
      };
      resume_deadline = resume_deadline;
    })

  module _ {S : Type 0} (fill : S → ℕ → Option Bytes × S) where
    -- Three `entropy.fill` calls; the first failure ends them.
    unfoldable pub draw : S → Prepared Draws × S
    draw entropy =
        let (sender_nonce, s1) = fill entropy 32 in
        elim sender_nonce [
          | none ↦ (err tt, s1)
          | some sender_nonce ↦
              let (claim_id, s2) = fill s1 16 in
              elim claim_id [
                | none ↦ (err tt, s2)
                | some claim_id ↦
                    let (aead_nonce, s3) = fill s2 24 in
                    elim aead_nonce [
                      | none ↦ (err tt, s3)
                      | some aead_nonce ↦ (
                        ok (record {
                          sender_nonce = sender_nonce;
                          claim_id = claim_id;
                          aead_nonce = aead_nonce;
                        }),
                        s3,
                      )
                    ]
              ]
        ]

    unfoldable pub prepare_offer :
        SenderActor → Bytes → OpenRequest → ℕ → S → Prepared BoundClaim × S
    prepare_offer a receiver_peer_id request now entropy = elim a.root [
      | none ↦ (err tt, entropy)
      | some root ↦ elim a.encoded_envelope [
        | none ↦ (err tt, entropy)
        | some plaintext ↦
            let (draws, entropy) = draw entropy in
            (draws >>= build_claim a root plaintext receiver_peer_id request now, entropy)
      ]
    ]

    -- `handle_open` once the state is `Available` before its deadline.
    unfoldable pub claim_offer :
        SenderActor
        → Bytes
        → OpenRequest
        → ℕ
        → S
        → Result ProtocolErrorCode OfferResponse × SenderActor × S
    unfolding close
    claim_offer a receiver_peer_id request now entropy =
        let a' = record a { state = preparing_offer } in
        let (prepared, entropy) = prepare_offer a' receiver_peer_id request now entropy in
        elim prepared [
          | ok claim ↦
              (ok claim.offer, record a' { claim = some claim; state = disclosed }, entropy)
          | err e ↦ (err internal_failure, close a' failed_closed, entropy)
        ]

    -- The `match self.state`.
    unfoldable pub open_in :
        SenderState
        → SenderActor
        → Bytes
        → OpenRequest
        → ℕ
        → S
        → Result ProtocolErrorCode OfferResponse × SenderActor × S
    unfolding is_overdue
    open_in available a receiver_peer_id request now entropy =
        if leb a.available_deadline now
        then (err share_expired, close a expired, entropy)
        else claim_offer a receiver_peer_id request now entropy
    open_in disclosed a receiver_peer_id request now entropy =
        if is_overdue a.claim now
        then (err share_unavailable, close a delivery_unknown, entropy)
        else (resume_offer a receiver_peer_id request, a, entropy)
    open_in preparing_offer a receiver_peer_id request now entropy =
        (err temporarily_unavailable, a, entropy)
    open_in _ a receiver_peer_id request now entropy = (err share_unavailable, a, entropy)

    unfoldable pub handle_open :
        SenderActor
        → Bytes
        → OpenRequest
        → ℕ
        → S
        → Result ProtocolErrorCode OfferResponse × SenderActor × S
    handle_open a receiver_peer_id request now entropy =
        if not (request.protocol_version == protocol_version)
        then (err unsupported_version, a, entropy)
        else if not (authenticates_open P a receiver_peer_id request)
        then (err not_found_or_unauthorized, a, entropy)
        else open_in a.state a receiver_peer_id request now entropy
