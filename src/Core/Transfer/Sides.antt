-- ===== src/Core/Transfer/Sides.antt =====
-- crates/core: the two sides of a transfer that share a root and a context.
use envshare.Prelude.{
  ℕ, ◌≡◌, refl, ap, ap₂, sym, subst, ◌∙◌, true, not, ◌||◌, Option, some, ltb, ltb→lt, ◌<◌, ◌^◌,
  length, is_empty, Bytes, bytes_eq_refl, ok, map_err, ok-inj, some-inj, >>=-eq-ok,
  guard-bind-eq-ok, arith,
}
use envshare.Primitives.{Primitives}
use envshare.Cbor.{Cbor, IsCbor}
use envshare.Protocol.Limits.{protocol_version}
use envshare.Protocol.Envelope.{SecretEnvelope, content_type_as_u8}
use envshare.Protocol.Envelope
use envshare.Protocol.Envelope.Codec.{IsEnvelope, decode-encode}
use envshare.Protocol.Message.{OpenRequest}
use envshare.Crypto.Types.{DerivedRoot, verifies}
use envshare.Crypto.Proof.{open_proof}
use envshare.Core.Errors.{transfer, configuration, internal}
use envshare.Core.Sender.{
  SenderState, available, disclosed, preparing_offer, SenderActor, BoundClaim,
  handle_acknowledgement, authenticates_open,
}
use envshare.Core.Sender
use envshare.Core.Offer.{Draws, build_claim, prepare_offer, claim_offer, open_in, handle_open}
use envshare.Core.Offer
use envshare.Core.Receiver.{ReceiverSession, VerifiedOffer, verify_offer, open_request}
use envshare.Core.Receiver
use envshare.Core.Transfer.{map_err-eq-ok, Meets}

-- What `SenderActor::new` leaves in the actor.
pub record Made (C : Cbor) (root : DerivedRoot) (network_id sender_peer_id : Bytes)
    (envelope : SecretEnvelope) (a : SenderActor) : Type 0 where
  pub state_eq : a.state ≡ available
  pub root_eq : a.root ≡ some root
  pub room_eq : a.room_id ≡ root.room_id
  pub network_eq : a.network_id ≡ network_id
  pub sender_eq : a.sender_peer_id ≡ sender_peer_id
  pub encoded : Bytes
  pub encoded_eq : a.encoded_envelope ≡ some encoded
  pub encode_eq : Envelope.encode C envelope ≡ ok encoded
  pub content_eq : a.content_type ≡ content_type_as_u8 envelope.content_type
  pub length_eq : a.plaintext_length ≡ length envelope.payload
  pub size : length envelope.payload < 2 ^ 32
  pub expires_eq : a.expires_at_unix_ms ≡ envelope.expires_at_unix_ms

pub new-Made :
    (C : Cbor) (root : DerivedRoot) (network_id sender_peer_id : Bytes) (envelope : SecretEnvelope)
    (deadline resume : ℕ) (a : SenderActor)
    → Offer.new C root network_id sender_peer_id envelope deadline resume ≡ ok a
    → Made C root network_id sender_peer_id envelope a
unfolding Offer.new
new-Made C root network_id sender_peer_id envelope deadline resume a h =
    let (_, h1) =
      guard-bind-eq-ok (not (is_empty sender_peer_id || is_empty network_id)) configuration _ h in
    let (size, h2) = guard-bind-eq-ok (ltb (length envelope.payload) (2 ^ 32)) internal _ h1 in
    let (encoded, q, h3) = >>=-eq-ok (map_err (Envelope.encode C envelope) transfer) _ h2 in
    subst (Made C root network_id sender_peer_id envelope) (ok-inj h3) (record {
      state_eq = refl;
      root_eq = refl;
      room_eq = refl;
      network_eq = refl;
      sender_eq = refl;
      encoded = encoded;
      encoded_eq = refl;
      encode_eq = map_err-eq-ok _ _ q;
      content_eq = refl;
      length_eq = refl;
      size = ltb→lt (length envelope.payload) (2 ^ 32) size;
      expires_eq = refl;
    })

receiver_new-eq :
    (root : DerivedRoot) (network_id sender_peer_id receiver_peer_id receiver_nonce : Bytes)
    (s : ReceiverSession)
    → Receiver.new root network_id sender_peer_id receiver_peer_id receiver_nonce ≡ ok s
    → s ≡ record {
      root = root;
      network_id = network_id;
      sender_peer_id = sender_peer_id;
      receiver_peer_id = receiver_peer_id;
      receiver_nonce = receiver_nonce;
    }
unfolding Receiver.new
receiver_new-eq root network_id sender_peer_id receiver_peer_id receiver_nonce s h = ground arith

pub open_request-eq :
    (P : Primitives) (s : ReceiverSession) (request : OpenRequest)
    → open_request P s ≡ ok request
    → (open_proof P s.root.authentication_key (Receiver.context s) s.receiver_nonce
        ≡ ok request.receiver_proof)
      × (request.protocol_version ≡ protocol_version)
      × (request.room_id ≡ s.root.room_id)
      × (request.receiver_nonce ≡ s.receiver_nonce)
unfolding open_request
open_request-eq P s request h = ground arith

same_context :
    {C : Cbor} (root : DerivedRoot)
    (network_id sender_peer_id receiver_peer_id receiver_nonce : Bytes) (envelope : SecretEnvelope)
    (a : SenderActor) (s : ReceiverSession)
    → Made C root network_id sender_peer_id envelope a
    → Receiver.new root network_id sender_peer_id receiver_peer_id receiver_nonce ≡ ok s
    → Sender.context a receiver_peer_id ≡ Receiver.context s
unfolding Sender.context Receiver.context
same_context root network_id sender_peer_id receiver_peer_id receiver_nonce envelope a s made h =
    rw
      (
        receiver_new-eq root network_id sender_peer_id receiver_peer_id receiver_nonce s h,
        made.room_eq,
        made.network_eq,
        made.sender_eq,
      )
      refl

module _ (P : Primitives) (C : Cbor) (L : IsCbor C) (checked_add : ℕ → ℕ → Option ℕ) where
  -- The sides of a transfer agree on the network, the peers, the nonce and the envelope.
  pub meets :
      (root : DerivedRoot) (network_id sender_peer_id receiver_peer_id receiver_nonce : Bytes)
      (envelope : SecretEnvelope) (a : SenderActor) (s : ReceiverSession) (request : OpenRequest)
      (r : DerivedRoot) (plaintext : Bytes)
      → IsEnvelope C envelope
      → Made C root network_id sender_peer_id envelope a
      → Receiver.new root network_id sender_peer_id receiver_peer_id receiver_nonce ≡ ok s
      → open_request P s ≡ ok request
      → a.root ≡ some r
      → a.encoded_envelope ≡ some plaintext
      → Meets P checked_add C
          (record a { state = preparing_offer })
          r
          plaintext
          receiver_peer_id
          request
          s
          envelope
  unfolding Sender.context
  meets root network_id sender_peer_id receiver_peer_id receiver_nonce envelope a s request r
        plaintext is made h k p q =
      let s_eq =
        receiver_new-eq root network_id sender_peer_id receiver_peer_id receiver_nonce s h in
      let (_, _, _, nonce_eq) = open_request-eq P s request k in
      let (encoded, e, decoded) = decode-encode C L envelope is in
      record {
        root_eq = ap (λ x. x.root) s_eq ∙ some-inj (sym made.root_eq ∙ p);
        context_eq =
            same_context root network_id sender_peer_id receiver_peer_id receiver_nonce envelope a s
              made h;
        nonce_eq = nonce_eq;
        decoded =
            ap (Envelope.decode C)
              (some-inj (sym q ∙ made.encoded_eq) ∙ ok-inj (sym made.encode_eq ∙ e))
            ∙ decoded;
        content_eq = made.content_eq;
        expires_eq = made.expires_eq;
        length_eq = made.length_eq;
        size = made.size;
      }

  pub honest-authenticates :
      (root : DerivedRoot) (network_id sender_peer_id receiver_peer_id receiver_nonce : Bytes)
      (envelope : SecretEnvelope) (a : SenderActor) (s : ReceiverSession) (request : OpenRequest)
      → Made C root network_id sender_peer_id envelope a
      → Receiver.new root network_id sender_peer_id receiver_peer_id receiver_nonce ≡ ok s
      → open_request P s ≡ ok request
      → authenticates_open P a receiver_peer_id request ≡ true
  unfolding authenticates_open verifies
  honest-authenticates root network_id sender_peer_id receiver_peer_id receiver_nonce envelope a s
        request made h k =
      let s_eq =
        receiver_new-eq root network_id sender_peer_id receiver_peer_id receiver_nonce s h in
      let (proof, _, room, nonce) = open_request-eq P s request k in
      let room_eq : request.room_id ≡ a.room_id =
        room ∙ ap (λ x. x.root.room_id) s_eq ∙ sym made.room_eq in
      let expected : open_proof P root.authentication_key (Sender.context a receiver_peer_id)
            request.receiver_nonce
          ≡ ok request.receiver_proof =
        ap₂ (λ x n. open_proof P root.authentication_key x n)
          (same_context root network_id sender_peer_id receiver_peer_id receiver_nonce envelope a s
            made h)
          nonce
        ∙ ap (λ x. open_proof P x.root.authentication_key (Receiver.context s) s.receiver_nonce)
            (sym s_eq)
        ∙ proof in
      rw (made.root_eq, room_eq, bytes_eq_refl a.room_id)
        (rw expected (bytes_eq_refl request.receiver_proof))
