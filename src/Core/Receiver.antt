-- ===== src/Core/Receiver.antt =====
-- crates/core/src/receiver/session.rs: the receiver's view of one transfer. The checks of
-- `verify_offer` stand in the source's order; all its errors are `transfer`.
pub mod Authentic
use envshare.Prelude.{
  ℕ, ◌^◌, Bool, true, false, not, ◌&&◌, ◌||◌, ltb, ◌==◌, is_empty, length, Bytes, Result, ok, err,
  ◌>>=◌, ◌>>◌, guard, map_err,
}
use envshare.Primitives.{Primitives}
use envshare.Cbor.{Cbor}
use envshare.Protocol.Limits.{protocol_version}
use envshare.Protocol.Envelope.{SecretEnvelope, content_type_as_u8, content_type_try_from}
use envshare.Protocol.Envelope
use envshare.Protocol.Message.{OpenRequest, OfferResponse, AcknowledgeRequest}
use envshare.Crypto.Types.{
  DerivedRoot, SessionKeys, PeerContext, PayloadAadInput, OfferProofInput, verifies,
}
use envshare.Crypto.Kdf.{derive_session}
use envshare.Crypto.Proof.{open_proof, offer_proof, acknowledgement_proof}
use envshare.Crypto.Aead.{payload_associated_data, decrypt_payload, verify_ciphertext_digest}
use envshare.Core.Errors.{Outcome, configuration, transfer}

pub record ReceiverSession : Type 0 where
  pub root : DerivedRoot
  pub network_id : Bytes
  pub sender_peer_id : Bytes
  pub receiver_peer_id : Bytes
  pub receiver_nonce : Bytes

pub record VerifiedOffer : Type 0 where
  pub envelope : SecretEnvelope
  pub acknowledgement : AcknowledgeRequest

-- `ReceiverSession::new`
unfoldable pub new : DerivedRoot → Bytes → Bytes → Bytes → Bytes → Outcome ReceiverSession
new root network_id sender_peer_id receiver_peer_id receiver_nonce = do
  guard (not (is_empty network_id || is_empty sender_peer_id || is_empty receiver_peer_id))
      configuration
  ok (record {
    root = root;
    network_id = network_id;
    sender_peer_id = sender_peer_id;
    receiver_peer_id = receiver_peer_id;
    receiver_nonce = receiver_nonce;
  })

unfoldable pub context : ReceiverSession → PeerContext
context s = record {
  network_id = s.network_id;
  room_id = s.root.room_id;
  sender_peer_id = s.sender_peer_id;
  receiver_peer_id = s.receiver_peer_id;
}

abbrev pub proof_input : ReceiverSession → OfferResponse → OfferProofInput
proof_input s offer = record {
  context = context s;
  receiver_nonce = s.receiver_nonce;
  sender_nonce = offer.sender_nonce;
  claim_id = offer.claim_id;
  expires_at_unix_ms = offer.expires_at_unix_ms;
  content_type = offer.content_type;
  plaintext_length = offer.plaintext_length;
  aead_nonce = offer.aead_nonce;
  ciphertext_digest = offer.ciphertext_digest;
}

abbrev pub aad_input : ReceiverSession → OfferResponse → PayloadAadInput
aad_input s offer = record {
  context = context s;
  receiver_nonce = s.receiver_nonce;
  sender_nonce = offer.sender_nonce;
  claim_id = offer.claim_id;
  expires_at_unix_ms = offer.expires_at_unix_ms;
  content_type = offer.content_type;
  plaintext_length = offer.plaintext_length;
}

module _ (P : Primitives) where
  unfoldable pub open_request : ReceiverSession → Outcome OpenRequest
  unfolding context
  open_request s = do
    proof ← map_err (open_proof P s.root.authentication_key (context s) s.receiver_nonce) transfer
    ok (record {
      protocol_version = protocol_version;
      room_id = s.root.room_id;
      receiver_nonce = s.receiver_nonce;
      receiver_proof = proof;
    })

  -- `verify_offer` up to the digest: nothing is decrypted before these checks pass.
  unfoldable pub authenticate_offer : ReceiverSession → OfferResponse → Outcome (Unit {0})
  unfolding verifies
  authenticate_offer s offer = do
    guard (offer.protocol_version == protocol_version) transfer
    content ← map_err (content_type_try_from offer.content_type) transfer
    expected ← map_err (offer_proof P s.root.authentication_key (proof_input s offer)) transfer
    guard
        (not (
          not (verifies expected offer.sender_proof)
          || not (
              verify_ciphertext_digest P offer.ciphertext_digest offer.aead_nonce
                offer.ciphertext)))
        transfer

  -- The session keys and the decoded envelope, before it is compared with the offer.
  unfoldable pub open_envelope :
      Cbor → ReceiverSession → OfferResponse → Outcome (SessionKeys × SecretEnvelope)
  open_envelope C s offer = do
    session ←
        map_err
          (derive_session P s.root.session_base_key (context s) s.receiver_nonce offer.sender_nonce
            offer.claim_id)
          transfer
    aad ← map_err (payload_associated_data (aad_input s offer)) transfer
    plaintext ←
        map_err (decrypt_payload P session.payload_key offer.aead_nonce offer.ciphertext aad)
          transfer
    envelope ← map_err (Envelope.decode C plaintext) transfer
    ok (session, envelope)

  unfoldable pub verify_offer : Cbor → ReceiverSession → OfferResponse → Outcome VerifiedOffer
  unfolding authenticate_offer open_envelope
  verify_offer C s offer = do
    authenticate_offer s offer
    (session, envelope) ← open_envelope C s offer
    guard (content_type_as_u8 envelope.content_type == offer.content_type) transfer
    guard (envelope.expires_at_unix_ms == offer.expires_at_unix_ms) transfer
    guard (ltb (length envelope.payload) (2 ^ 32)) transfer
    guard (length envelope.payload == offer.plaintext_length) transfer
    proof ←
        map_err
          (acknowledgement_proof P session.acknowledgement_key (context s) offer.claim_id
            offer.ciphertext_digest)
          transfer
    ok (record {
      envelope = envelope;
      acknowledgement = record {
        protocol_version = protocol_version;
        claim_id = offer.claim_id;
        ciphertext_digest = offer.ciphertext_digest;
        acknowledgement_proof = proof;
      };
    })
