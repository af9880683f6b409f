-- ===== src/Core/Transfer/EndToEnd.antt =====
-- crates/core: a whole transfer between a sender and a receiver.
use envshare.Prelude.{
  ℕ, ◌≡◌, refl, ap, sym, ◌∙◌, inl, Option, ◌<◌, Bytes, bytes_eq_refl, ok, some-inj, arith,
}
use envshare.Primitives.{Primitives, IsAead}
use envshare.Cbor.{Cbor, IsCbor}
use envshare.Protocol.Envelope.{SecretEnvelope}
use envshare.Protocol.Envelope.Codec.{IsEnvelope}
use envshare.Protocol.Message.{OpenRequest, OfferResponse}
use envshare.Crypto.Types.{DerivedRoot}
use envshare.Core.Sender.{preparing_offer, SenderActor, handle_acknowledgement}
use envshare.Core.Offer.{Draws, build_claim, prepare_offer, claim_offer, open_in, handle_open}
use envshare.Core.Offer
use envshare.Core.Receiver.{ReceiverSession, VerifiedOffer, verify_offer, open_request}
use envshare.Core.Receiver
use envshare.Core.Direct.{finish_acknowledge, completed_response}
use envshare.Core.Lifecycle.Answers.{Acknowledges, handle_acknowledgement_iff}
use envshare.Core.Lifecycle.Opens.{handle_open-Offered, available-prepares, prepare_offer-IsDrawn}
use envshare.Core.Transfer.Sides.{new-Made, open_request-eq, meets, honest-authenticates}
use envshare.Core.Transfer.{build_claim-Built, verifies_offer, acknowledgement_of}

-- What the receiver ends with: the envelope, and an acknowledgement that the sender accepts.
pub record Delivered (P : Primitives) (C : Cbor) (s : ReceiverSession) (o : OfferResponse)
    (envelope : SecretEnvelope) (a' : SenderActor) (peer : Bytes) : Type 0 where
  pub verified : VerifiedOffer
  pub verified_eq : verify_offer P C s o ≡ ok verified
  pub envelope_eq : verified.envelope ≡ envelope
  pub accepted : Acknowledges a' peer verified.acknowledgement
  pub finished :
      finish_acknowledge verified
        (completed_response (handle_acknowledgement a' peer verified.acknowledgement).0)
      ≡ ok envelope

finishes :
    (a : SenderActor) (peer : Bytes) (v : VerifiedOffer)
    → Acknowledges a peer v.acknowledgement
    → finish_acknowledge v (completed_response (handle_acknowledgement a peer v.acknowledgement).0)
      ≡ ok v.envelope
unfolding finish_acknowledge completed_response
finishes a peer v h =
    rw
      (
        (handle_acknowledgement_iff a peer v.acknowledgement).1 h,
        bytes_eq_refl v.acknowledgement.claim_id,
      )
      refl

module _ (P : Primitives) (sealed : IsAead P) (C : Cbor) (L : IsCbor C)
    (checked_add : ℕ → ℕ → Option ℕ) {S : Type 0} (fill : S → ℕ → Option Bytes × S) where
  -- For an envelope that can be encoded, a sender that `new` made for it and a receiver session
  -- with the same root and context: if `handle_open` answers the session's open request by an
  -- offer, `verify_offer` verifies it to that envelope, the sender accepts the acknowledgement, and
  -- the response to it completes the transfer. The AEAD opens what it sealed and the CBOR codec
  -- reads what it wrote.
  pub open-Delivered :
      (root : DerivedRoot) (network_id sender_peer_id receiver_peer_id receiver_nonce : Bytes)
      (envelope : SecretEnvelope) (deadline resume now : ℕ) (entropy : S) (a : SenderActor)
      (s : ReceiverSession) (request : OpenRequest) (o : OfferResponse)
      → IsEnvelope C envelope
      → Offer.new C root network_id sender_peer_id envelope deadline resume ≡ ok a
      → Receiver.new root network_id sender_peer_id receiver_peer_id receiver_nonce ≡ ok s
      → open_request P s ≡ ok request
      → (handle_open P checked_add fill a receiver_peer_id request now entropy).0 ≡ ok o
      → Delivered P C s o envelope
          (handle_open P checked_add fill a receiver_peer_id request now entropy).1
          receiver_peer_id
  open-Delivered root network_id sender_peer_id receiver_peer_id receiver_nonce envelope deadline
        resume now entropy a s request o is h k q g =
      let made = new-Made C root network_id sender_peer_id envelope deadline resume a h in
      let (c, prepared, offer_eq, a_eq) =
        available-prepares P checked_add fill a receiver_peer_id request now entropy o made.state_eq
          g in
      let preparing = record a { state = preparing_offer } in
      let d =
        prepare_offer-IsDrawn P checked_add fill preparing receiver_peer_id request now entropy c
          prepared in
      let b =
        build_claim-Built P checked_add preparing d.root d.plaintext receiver_peer_id request now
          d.draws c d.claim_eq in
      let m =
        meets P C L checked_add root network_id sender_peer_id receiver_peer_id receiver_nonce
          envelope a s request d.root d.plaintext is made k q d.root_eq d.plaintext_eq in
      let off = handle_open-Offered P checked_add fill a receiver_peer_id request now entropy o g in
      let same = some-inj (sym off.claim_eq ∙ ap (λ x. x.claim) a_eq) in
      let verified : VerifiedOffer = record {
        envelope = envelope;
        acknowledgement = acknowledgement_of P checked_add c;
      } in
      let accepted : Acknowledges
          (handle_open P checked_add fill a receiver_peer_id request now entropy).1 receiver_peer_id
          verified.acknowledgement =
        record {
          version = refl;
          state = inl off.disclosed_eq;
          claim = c;
          claim_eq = ap (λ x. x.claim) a_eq;
          peer_eq = off.peer_eq ∙ ap (λ x. x.receiver_peer_id) same;
          claim_id_eq = refl;
          digest_eq = refl;
          proof_eq = refl;
        } in
      record {
        verified = verified;
        verified_eq =
            ap (verify_offer P C s) (offer_eq ∙ b.offer_eq)
            ∙ verifies_offer P checked_add sealed C preparing d.root d.plaintext receiver_peer_id
                request d.draws c s envelope m b;
        envelope_eq = refl;
        accepted = accepted;
        finished =
            finishes (handle_open P checked_add fill a receiver_peer_id request now entropy).1
              receiver_peer_id verified accepted;
      }

  -- Before its deadline, a sender that `new` made does not refuse the open request of a receiver
  -- session with the same root and context: `handle_open` goes on to prepare the offer.
  pub open-reaches-claim_offer :
      (root : DerivedRoot) (network_id sender_peer_id receiver_peer_id receiver_nonce : Bytes)
      (envelope : SecretEnvelope) (deadline resume now : ℕ) (entropy : S) (a : SenderActor)
      (s : ReceiverSession) (request : OpenRequest)
      → Offer.new C root network_id sender_peer_id envelope deadline resume ≡ ok a
      → Receiver.new root network_id sender_peer_id receiver_peer_id receiver_nonce ≡ ok s
      → open_request P s ≡ ok request
      → now < a.available_deadline
      → handle_open P checked_add fill a receiver_peer_id request now entropy
        ≡ claim_offer P checked_add fill a receiver_peer_id request now entropy
  unfolding handle_open open_in
  open-reaches-claim_offer root network_id sender_peer_id receiver_peer_id receiver_nonce envelope
        deadline resume now entropy a s request h k q before =
      let made = new-Made C root network_id sender_peer_id envelope deadline resume a h in
      let (_, version, _, _) = open_request-eq P s request q in
      ground (
        arith,
        version,
        made.state_eq,
        before,
        honest-authenticates P C L checked_add root network_id sender_peer_id receiver_peer_id
            receiver_nonce envelope a s request made k q,
      )
