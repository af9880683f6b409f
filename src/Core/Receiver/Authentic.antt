-- ===== src/Core/Receiver/Authentic.antt =====
-- crates/core/src/receiver/session.rs: what holds of every offer that `verify_offer` accepts.
use envshare.Prelude.{
  ◌^◌, ◌≡◌, refl, sym, subst, Bool, true, not, ◌||◌, ltb, ◌==◌, ==_iff, length, bytes_eq,
  bytes_eq_iff, Result, ok, err, map_err, guard-bind-eq-ok, guard-eq-ok, >>=-eq-ok, ok-inj, arith,
}
use envshare.Primitives.{Primitives}
use envshare.Cbor.{Cbor}
use envshare.Protocol.Limits.{protocol_version}
use envshare.Protocol.Envelope.{content_type_as_u8, content_type_try_from}
use envshare.Protocol.Message.{OfferResponse}
use envshare.Crypto.Types.{verifies}
use envshare.Crypto.Proof.{offer_proof, acknowledgement_proof}
use envshare.Crypto.Aead.{ciphertext_digest, verify_ciphertext_digest}
use envshare.Core.Errors.{transfer}
use envshare.Core.Receiver.{
  ReceiverSession, VerifiedOffer, context, proof_input, authenticate_offer, open_envelope,
  verify_offer,
}

pub record Authentic (P : Primitives) (s : ReceiverSession) (o : OfferResponse) (v : VerifiedOffer)
    : Type 0 where
  pub version : o.protocol_version ≡ protocol_version
  pub proof : offer_proof P s.root.authentication_key (proof_input s o) ≡ ok o.sender_proof
  pub digest : o.ciphertext_digest ≡ ciphertext_digest P o.aead_nonce o.ciphertext
  pub content : content_type_as_u8 v.envelope.content_type ≡ o.content_type
  pub expires : v.envelope.expires_at_unix_ms ≡ o.expires_at_unix_ms
  pub size : length v.envelope.payload ≡ o.plaintext_length
  pub claim : v.acknowledgement.claim_id ≡ o.claim_id
  pub acknowledged : v.acknowledgement.ciphertext_digest ≡ o.ciphertext_digest

not_or : (a b : Bool) → not (not a || not b) ≡ true → (a ≡ true) × (b ≡ true)
not_or a b h = ground arith

map_err-inj {ℓ} :
    {E F : Type 0} {A : Type ℓ} (m : Result E A) (f : F) {a : A} → map_err m f ≡ ok a → m ≡ ok a
map_err-inj (ok a) f h = cc
map_err-inj (err e) f h = cc

module _ (P : Primitives) (s : ReceiverSession) (o : OfferResponse) where
  authenticated :
      authenticate_offer P s o ≡ ok tt
      → (o.protocol_version ≡ protocol_version)
        × (offer_proof P s.root.authentication_key (proof_input s o) ≡ ok o.sender_proof)
        × (o.ciphertext_digest ≡ ciphertext_digest P o.aead_nonce o.ciphertext)
  unfolding authenticate_offer verifies verify_ciphertext_digest
  authenticated h =
      let (version, h1) = guard-bind-eq-ok (o.protocol_version == protocol_version) transfer _ h in
      let (content, _, h2) =
        >>=-eq-ok (map_err (content_type_try_from o.content_type) transfer) _ h1 in
      let (expected, q, h3) =
        >>=-eq-ok (map_err (offer_proof P s.root.authentication_key (proof_input s o)) transfer) _
          h2 in
      let (p, d) =
        not_or (bytes_eq expected o.sender_proof)
          (verify_ciphertext_digest P o.ciphertext_digest o.aead_nonce o.ciphertext)
          (guard-eq-ok _ transfer h3) in
      (
        ground (arith, version),
        cc (map_err-inj _ _ q, (bytes_eq_iff expected o.sender_proof).0 p),
        sym (
            (bytes_eq_iff (ciphertext_digest P o.aead_nonce o.ciphertext) o.ciphertext_digest).0 d),
      )

  -- Every offer that `verify_offer` accepts, from whatever sender, has this version, carries the
  -- proof of its own fields under the session's authentication key and the digest of its own nonce
  -- and ciphertext; the envelope's type, expiry and payload length are the offer's, and the
  -- acknowledgement names its claim and digest.
  pub verify_offer-Authentic :
      (C : Cbor) (v : VerifiedOffer) → verify_offer P C s o ≡ ok v → Authentic P s o v
  unfolding verify_offer
  verify_offer-Authentic C v h =
      let (_, q, h1) = >>=-eq-ok (authenticate_offer P s o) _ h in
      let ((session, envelope), _, h2) = >>=-eq-ok (open_envelope P C s o) _ h1 in
      let (content, h3) =
        guard-bind-eq-ok (content_type_as_u8 envelope.content_type == o.content_type) transfer _
          h2 in
      let (expires, h4) =
        guard-bind-eq-ok (envelope.expires_at_unix_ms == o.expires_at_unix_ms) transfer _ h3 in
      let (_, h5) = guard-bind-eq-ok (ltb (length envelope.payload) (2 ^ 32)) transfer _ h4 in
      let (size, h6) =
        guard-bind-eq-ok (length envelope.payload == o.plaintext_length) transfer _ h5 in
      let (proof, _, h7) =
        >>=-eq-ok
          (map_err
            (acknowledgement_proof P session.acknowledgement_key (context s) o.claim_id
              o.ciphertext_digest)
            transfer)
          _ h6 in
      let (version, authentic, digest) = authenticated q in
      subst (Authentic P s o) (ok-inj h7) (record {
        version = version;
        proof = authentic;
        digest = digest;
        content = (==_iff _ _).0 content;
        expires = (==_iff _ _).0 expires;
        size = (==_iff _ _).0 size;
        claim = refl;
        acknowledged = refl;
      })
