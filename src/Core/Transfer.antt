-- ===== src/Core/Transfer.antt =====
-- crates/core: a transfer from the sender's actor to the receiver's session and back.
pub mod Sides
pub mod EndToEnd
use envshare.Prelude.{
  ℕ, ◌≡◌, refl, ap, ap₂, sym, subst, ◌∙◌, Bool, true, false, not, ◌&&◌, ◌||◌, Option, none, some,
  ◌++◌, ltb, ◌==◌, ==_refl, lt→ltb, ◌<◌, ◌^◌, length, Bytes, bytes_eq, bytes_eq_refl, Result, ok,
  err, ◌>>=◌, ◌>>◌, guard, ok_or, map_err, ok-inj, some-inj, >>=-eq-ok, ok_or-eq-ok, arith,
}
use envshare.Primitives.{Primitives, IsAead}
use envshare.Cbor.{Cbor}
use envshare.Protocol.Limits.{protocol_version}
use envshare.Protocol.Envelope.{SecretEnvelope, content_type_as_u8, content_type_try_from}
use envshare.Protocol.Envelope
use envshare.Protocol.Message.{OpenRequest, OfferResponse, AcknowledgeRequest}
use envshare.Crypto.Types.{
  DerivedRoot, SessionKeys, PeerContext, verifies, PayloadAadInput, OfferProofInput, CryptoError,
}
use envshare.Crypto.Kdf.{derive_session}
use envshare.Crypto.Proof.{open_proof, offer_proof, acknowledgement_proof}
use envshare.Crypto.Aead.{
  payload_associated_data, encrypt_payload, decrypt_payload, ciphertext_digest,
  verify_ciphertext_digest,
}
use envshare.Core.Errors.{CoreError, transfer}
use envshare.Core.Sender.{SenderActor, BoundClaim}
use envshare.Core.Sender
use envshare.Core.Offer.{Draws, build_claim}
use envshare.Core.Offer
use envshare.Core.Receiver.{
  ReceiverSession, VerifiedOffer, authenticate_offer, open_envelope, verify_offer,
}
use envshare.Core.Receiver

pub map_err-eq-ok {ℓ} :
    {E F : Type 0} {A : Type ℓ} (m : Result E A) (f : F) {a : A} → map_err m f ≡ ok a → m ≡ ok a
map_err-eq-ok (ok a) f h = ap ok (ok-inj h)
map_err-eq-ok (err e) f h = cc

ok_or-inj {ℓ} :
    {E : Type 0} {A : Type ℓ} (m : Option A) (e : E) {a : A} → ok_or m e ≡ ok a → m ≡ some a
ok_or-inj (some a) e h = ap some (ok-inj h)
ok_or-inj none e h = cc

module _ (P : Primitives) (checked_add : ℕ → ℕ → Option ℕ) where
  -- What the claim was made of.
  pub record Built (a : SenderActor) (root : DerivedRoot) (plaintext peer : Bytes)
      (request : OpenRequest) (d : Draws) (c : BoundClaim) : Type 0 where
    pub session : SessionKeys
    pub session_eq :
        derive_session P root.session_base_key
          (Sender.context a peer)
          request.receiver_nonce
          d.sender_nonce
          d.claim_id
        ≡ ok session
    pub aad : Bytes
    pub aad_eq : payload_associated_data (Offer.aad_input a peer request d) ≡ ok aad
    pub ciphertext_eq :
        encrypt_payload P session.payload_key d.aead_nonce plaintext aad ≡ ok c.offer.ciphertext
    pub digest_eq : c.digest ≡ ciphertext_digest P d.aead_nonce c.offer.ciphertext
    pub proof_eq :
        offer_proof P root.authentication_key (Offer.proof_input a peer request d c.digest)
        ≡ ok c.offer.sender_proof
    pub acknowledgement_eq :
        acknowledgement_proof P session.acknowledgement_key
          (Sender.context a peer)
          d.claim_id
          c.digest
        ≡ ok c.expected_acknowledgement
    pub claim_id_eq : c.claim_id ≡ d.claim_id
    pub offer_eq : c.offer ≡ record {
      protocol_version = protocol_version;
      claim_id = d.claim_id;
      sender_nonce = d.sender_nonce;
      aead_nonce = d.aead_nonce;
      expires_at_unix_ms = a.expires_at_unix_ms;
      content_type = a.content_type;
      plaintext_length = a.plaintext_length;
      ciphertext = c.offer.ciphertext;
      ciphertext_digest = c.digest;
      sender_proof = c.offer.sender_proof;
    }

  pub build_claim-Built :
      (a : SenderActor) (root : DerivedRoot) (plaintext peer : Bytes) (request : OpenRequest)
      (now : ℕ) (d : Draws) (c : BoundClaim)
      → build_claim P checked_add a root plaintext peer request now d ≡ ok c
      → Built a root plaintext peer request d c
  unfolding build_claim
  build_claim-Built a root plaintext peer request now d c h =
      let (session, q1, h1) =
        >>=-eq-ok
          (map_err
            (derive_session P root.session_base_key (Sender.context a peer) request.receiver_nonce
              d.sender_nonce d.claim_id)
            tt)
          _ h in
      let (aad, q2, h2) =
        >>=-eq-ok (map_err (payload_associated_data (Offer.aad_input a peer request d)) tt) _ h1 in
      let (ciphertext, q3, h3) =
        >>=-eq-ok (map_err (encrypt_payload P session.payload_key d.aead_nonce plaintext aad) tt) _
          h2 in
      let digest = ciphertext_digest P d.aead_nonce ciphertext in
      let (proof, q4, h4) =
        >>=-eq-ok
          (map_err
            (offer_proof P root.authentication_key (Offer.proof_input a peer request d digest)) tt)
          _ h3 in
      let (expected, q5, h5) =
        >>=-eq-ok
          (map_err
            (acknowledgement_proof P session.acknowledgement_key (Sender.context a peer) d.claim_id
              digest)
            tt)
          _ h4 in
      let (deadline, q6, h6) = ok_or-eq-ok (checked_add now a.resume_duration) tt _ h5 in
      subst (Built a root plaintext peer request d) (ok-inj h6) (record {
        session = session;
        session_eq = map_err-eq-ok _ _ q1;
        aad = aad;
        aad_eq = map_err-eq-ok _ _ q2;
        ciphertext_eq = map_err-eq-ok _ _ q3;
        digest_eq = refl;
        proof_eq = map_err-eq-ok _ _ q4;
        acknowledgement_eq = map_err-eq-ok _ _ q5;
        claim_id_eq = refl;
        offer_eq = refl;
      })

  -- The session is the other end of this claim.
  pub record Meets (C : Cbor) (a : SenderActor) (root : DerivedRoot) (plaintext peer : Bytes)
      (request : OpenRequest) (s : ReceiverSession) (envelope : SecretEnvelope) : Type 0 where
    pub root_eq : s.root ≡ root
    pub context_eq : Sender.context a peer ≡ Receiver.context s
    pub nonce_eq : request.receiver_nonce ≡ s.receiver_nonce
    pub decoded : Envelope.decode C plaintext ≡ ok envelope
    pub content_eq : a.content_type ≡ content_type_as_u8 envelope.content_type
    pub expires_eq : a.expires_at_unix_ms ≡ envelope.expires_at_unix_ms
    pub length_eq : a.plaintext_length ≡ length envelope.payload
    pub size : length envelope.payload < 2 ^ 32

  abbrev pub acknowledgement_of : BoundClaim → AcknowledgeRequest
  acknowledgement_of c = record {
    protocol_version = protocol_version;
    claim_id = c.claim_id;
    ciphertext_digest = c.digest;
    acknowledgement_proof = c.expected_acknowledgement;
  }

  abbrev offer_of : SenderActor → Draws → BoundClaim → OfferResponse
  offer_of a d c = record {
    protocol_version = protocol_version;
    claim_id = d.claim_id;
    sender_nonce = d.sender_nonce;
    aead_nonce = d.aead_nonce;
    expires_at_unix_ms = a.expires_at_unix_ms;
    content_type = a.content_type;
    plaintext_length = a.plaintext_length;
    ciphertext = c.offer.ciphertext;
    ciphertext_digest = c.digest;
    sender_proof = c.offer.sender_proof;
  }

  content_type_lem :
      (envelope : SecretEnvelope)
      → content_type_try_from (content_type_as_u8 envelope.content_type) ≡ ok envelope.content_type
  unfolding content_type_try_from content_type_as_u8
  content_type_lem envelope = ground arith

  proof_input_eq :
      (C : Cbor) (a : SenderActor) (root : DerivedRoot) (plaintext peer : Bytes)
      (request : OpenRequest) (d : Draws) (c : BoundClaim) (s : ReceiverSession)
      (envelope : SecretEnvelope)
      → Meets C a root plaintext peer request s envelope
      → Offer.proof_input a peer request d c.digest ≡ Receiver.proof_input s (offer_of a d c)
  proof_input_eq C a root plaintext peer request d c s envelope m = cc

  aad_input_eq :
      (C : Cbor) (a : SenderActor) (root : DerivedRoot) (plaintext peer : Bytes)
      (request : OpenRequest) (d : Draws) (c : BoundClaim) (s : ReceiverSession)
      (envelope : SecretEnvelope)
      → Meets C a root plaintext peer request s envelope
      → Offer.aad_input a peer request d ≡ Receiver.aad_input s (offer_of a d c)
  aad_input_eq C a root plaintext peer request d c s envelope m = cc

  module _ (sealed : IsAead P) (C : Cbor) (a : SenderActor) (root : DerivedRoot)
      (plaintext peer : Bytes) (request : OpenRequest) (d : Draws) (c : BoundClaim)
      (s : ReceiverSession) (envelope : SecretEnvelope)
      (m : Meets C a root plaintext peer request s envelope)
      (b : Built a root plaintext peer request d c) where
    proof_eq :
        offer_proof P s.root.authentication_key (Receiver.proof_input s (offer_of a d c))
        ≡ ok c.offer.sender_proof
    proof_eq =
        ap₂ (λ r i. offer_proof P r.authentication_key i) m.root_eq
          (sym (proof_input_eq C a root plaintext peer request d c s envelope m))
        ∙ b.proof_eq

    session_eq :
        derive_session P s.root.session_base_key
          (Receiver.context s)
          s.receiver_nonce
          d.sender_nonce
          d.claim_id
        ≡ ok b.session
    session_eq =
        ap₂
          (λ r x. derive_session P r.session_base_key x s.receiver_nonce d.sender_nonce d.claim_id)
          m.root_eq (sym m.context_eq)
        ∙ ap
            (λ n.
              derive_session P root.session_base_key (Sender.context a peer) n d.sender_nonce
                d.claim_id)
            (sym m.nonce_eq)
        ∙ b.session_eq

    aad_eq : payload_associated_data (Receiver.aad_input s (offer_of a d c)) ≡ ok b.aad
    aad_eq =
        ap payload_associated_data
          (sym (aad_input_eq C a root plaintext peer request d c s envelope m))
        ∙ b.aad_eq

    acknowledgement_eq :
        acknowledgement_proof P b.session.acknowledgement_key
          (Receiver.context s)
          d.claim_id
          c.digest
        ≡ ok c.expected_acknowledgement
    acknowledgement_eq =
        ap (λ x. acknowledgement_proof P b.session.acknowledgement_key x d.claim_id c.digest)
          (sym m.context_eq)
        ∙ b.acknowledgement_eq

    content_eq : content_type_try_from a.content_type ≡ ok envelope.content_type
    content_eq = ap content_type_try_from m.content_eq ∙ content_type_lem envelope

    digest_verifies : verify_ciphertext_digest P c.digest d.aead_nonce c.offer.ciphertext ≡ true
    unfolding verify_ciphertext_digest
    digest_verifies = rw (← b.digest_eq) (bytes_eq_refl c.digest)

    authenticates : authenticate_offer P s (offer_of a d c) ≡ ok tt
    unfolding authenticate_offer verifies
    authenticates =
        rw (content_eq, proof_eq, bytes_eq_refl c.offer.sender_proof, digest_verifies) refl

    sealed_eq :
        P.encrypt b.session.payload_key d.aead_nonce b.aad plaintext ≡ some c.offer.ciphertext
    unfolding encrypt_payload
    sealed_eq = ok_or-inj _ _ b.ciphertext_eq

    decrypts :
        decrypt_payload P b.session.payload_key d.aead_nonce c.offer.ciphertext b.aad ≡ ok plaintext
    unfolding decrypt_payload
    decrypts =
        rw
          (sealed.decrypt-encrypt b.session.payload_key d.aead_nonce b.aad plaintext
            c.offer.ciphertext sealed_eq)
          refl

    opens_envelope : open_envelope P C s (offer_of a d c) ≡ ok (b.session, envelope)
    unfolding open_envelope
    opens_envelope = rw (session_eq, aad_eq, decrypts, m.decoded) refl

    -- The offer of the claim is verified to the envelope, and its acknowledgement is the claim's.
    pub verifies_offer :
        verify_offer P C s (offer_of a d c)
        ≡ ok (record { envelope = envelope; acknowledgement = acknowledgement_of c })
    unfolding verify_offer
    verifies_offer =
        rw (authenticates, opens_envelope)
          (ground (
            arith, acknowledgement_eq, m.content_eq, m.expires_eq, m.length_eq, m.size,
            b.claim_id_eq,
          ))
