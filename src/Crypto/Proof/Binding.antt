-- ===== src/Crypto/Proof/Binding.antt =====
-- crates/crypto/src/proof.rs: what the transcripts bind.
use envshare.Prelude.{◌^◌, ◌<◌, ◌≡◌, List, [], ◌∷◌, All, arith, Bytes, ok}
use envshare.Protocol.Limits.{protocol_version}
use envshare.Crypto.Types.{PeerContext, OfferProofInput}
use envshare.Crypto.Transcript.{new}
use envshare.Crypto.Transcript.Encoding.{
  Field, u16, u32, u64, bytes, append_all, append_all-inj, append_all-head, NumberFits,
}
use envshare.Crypto.Proof.{
  open_domain, offer_domain, ack_domain, common_transcript, open_transcript, offer_transcript,
  acknowledgement_transcript,
}

abbrev header : PeerContext → List Field → List Field
header c rest =
    u16 protocol_version
    ∷ bytes c.network_id
    ∷ bytes c.room_id
    ∷ bytes c.sender_peer_id
    ∷ bytes c.receiver_peer_id
    ∷ rest

abbrev common_fields : Bytes → PeerContext → List Field → List Field
common_fields domain c rest = bytes domain ∷ header c rest

abbrev offer_rest : OfferProofInput → List Field
offer_rest i =
    bytes i.receiver_nonce
    ∷ bytes i.sender_nonce
    ∷ bytes i.claim_id
    ∷ u64 i.expires_at_unix_ms
    ∷ u16 i.content_type
    ∷ u32 i.plaintext_length
    ∷ bytes i.aead_nonce
    ∷ bytes i.ciphertext_digest
    ∷ []

abbrev offer_fields : OfferProofInput → List Field
offer_fields i = common_fields offer_domain i.context (offer_rest i)

abbrev open_fields : PeerContext → Bytes → List Field
open_fields c nonce = common_fields open_domain c (bytes nonce ∷ [])

abbrev ack_fields : PeerContext → Bytes → Bytes → List Field
ack_fields c claim digest = common_fields ack_domain c (bytes claim ∷ bytes digest ∷ [])

open_transcript-fields :
    (c : PeerContext) (nonce t : Bytes)
    → open_transcript c nonce ≡ ok t
    → append_all [] (open_fields c nonce) ≡ ok t
unfolding open_transcript common_transcript new
open_transcript-fields c nonce t h = ground arith

ack_transcript-fields :
    (c : PeerContext) (claim digest t : Bytes)
    → acknowledgement_transcript c claim digest ≡ ok t
    → append_all [] (ack_fields c claim digest) ≡ ok t
unfolding acknowledgement_transcript common_transcript new
ack_transcript-fields c claim digest t h = ground arith

offer_transcript-fields :
    (i : OfferProofInput) (t : Bytes)
    → offer_transcript i ≡ ok t
    → append_all [] (offer_fields i) ≡ ok t
unfolding offer_transcript common_transcript new
offer_transcript-fields i t h = ground arith

-- The ranges of the Rust types of an Offer's numbers.
pub record IsOfferProofInput (i : OfferProofInput) : Type 0 where
  pub expires : i.expires_at_unix_ms < 2 ^ 64
  pub content : i.content_type < 2 ^ 8
  pub plaintext : i.plaintext_length < 2 ^ 32

offer_rest-NumberFits : (i : OfferProofInput) → IsOfferProofInput i → All NumberFits (offer_rest i)
offer_rest-NumberFits i v = omega arith

offer_fields-NumberFits :
    (i : OfferProofInput) → IsOfferProofInput i → All NumberFits (offer_fields i)
offer_fields-NumberFits i v = omega arith

-- Two contexts and receiver nonces that give the same open transcript are equal.
pub open_transcript-inj :
    (c d : PeerContext) (n m t : Bytes)
    → open_transcript c n ≡ ok t
    → open_transcript d m ≡ ok t
    → (c ≡ d) × (n ≡ m)
open_transcript-inj c d n m t h k =
    let e =
      append_all-inj (open_fields c n) (open_fields d m) t (omega arith) (omega arith) (omega arith)
        (open_transcript-fields c n t h) (open_transcript-fields d m t k) in
    (ground arith, ground arith)

-- Two inputs whose expiry, content type and length fit their integers and that give the same offer
-- transcript are equal in all their fields.
pub offer_transcript-inj :
    (i j : OfferProofInput) (t : Bytes)
    → IsOfferProofInput i
    → IsOfferProofInput j
    → offer_transcript i ≡ ok t
    → offer_transcript j ≡ ok t
    → i ≡ j
offer_transcript-inj i j t vi vj h k =
    let e =
      append_all-inj (offer_fields i) (offer_fields j) t (omega arith)
        (offer_fields-NumberFits i vi) (offer_fields-NumberFits j vj)
        (offer_transcript-fields i t h) (offer_transcript-fields j t k) in
    ground arith

-- Two contexts, claims and digests that give the same acknowledgement transcript are equal.
pub acknowledgement_transcript-inj :
    (c d : PeerContext) (claim claim' digest digest' t : Bytes)
    → acknowledgement_transcript c claim digest ≡ ok t
    → acknowledgement_transcript d claim' digest' ≡ ok t
    → (c ≡ d) × (claim ≡ claim') × (digest ≡ digest')
acknowledgement_transcript-inj c d claim claim' digest digest' t h k =
    let e =
      append_all-inj (ack_fields c claim digest) (ack_fields d claim' digest') t (omega arith)
        (omega arith) (omega arith) (ack_transcript-fields c claim digest t h)
        (ack_transcript-fields d claim' digest' t k) in
    (ground arith, ground arith, ground arith)

header-NumberFits :
    (d : Bytes) (c : PeerContext) (rest : List Field)
    → All NumberFits rest
    → All NumberFits (common_fields d c rest)
header-NumberFits d c rest p = (tt, (omega arith, (tt, (tt, (tt, (tt, p))))))

bytes-inj : {v w : Bytes} → bytes v ≡ bytes w → v ≡ w
bytes-inj e = cc

same_domain :
    (d d' : Bytes) (c c' : PeerContext) (rest rest' : List Field) (t : Bytes)
    → All NumberFits rest
    → All NumberFits rest'
    → append_all [] (common_fields d c rest) ≡ ok t
    → append_all [] (common_fields d' c' rest') ≡ ok t
    → d ≡ d'
same_domain d d' c c' rest rest' t p q h k = bytes-inj (
    append_all-head (bytes d) (bytes d') (header c rest) (header c' rest') t tt
      (header-NumberFits d c rest p) (header-NumberFits d' c' rest' q) h k)

-- An open, an offer and an acknowledgement never give the same transcript, whatever their contexts
-- and fields, if the numbers of the offer fit their integers.
pub transcripts_separate :
    (c d : PeerContext) (n claim digest t : Bytes) (i : OfferProofInput)
    → IsOfferProofInput i
    → (¬ ((open_transcript c n ≡ ok t) × (offer_transcript i ≡ ok t)))
      × (¬ ((open_transcript c n ≡ ok t) × (acknowledgement_transcript d claim digest ≡ ok t)))
      × (¬ ((offer_transcript i ≡ ok t) × (acknowledgement_transcript d claim digest ≡ ok t)))
transcripts_separate c d n claim digest t i v = (
  (λ (h, k). cc (
      same_domain open_domain offer_domain c i.context (bytes n ∷ []) (offer_rest i) t (omega arith)
        (offer_rest-NumberFits i v) (open_transcript-fields c n t h)
        (offer_transcript-fields i t k))),
  (λ (h, k). cc (
      same_domain open_domain ack_domain c d (bytes n ∷ []) (bytes claim ∷ bytes digest ∷ []) t
        (omega arith) (omega arith) (open_transcript-fields c n t h)
        (ack_transcript-fields d claim digest t k))),
  (λ (h, k). cc (
      same_domain offer_domain ack_domain i.context d (offer_rest i)
        (bytes claim ∷ bytes digest ∷ []) t (offer_rest-NumberFits i v) (omega arith)
        (offer_transcript-fields i t h) (ack_transcript-fields d claim digest t k))),
)
