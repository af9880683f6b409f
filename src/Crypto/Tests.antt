-- ===== src/Crypto/Tests.antt =====
-- Instances for crates/crypto, with the sample cryptography.
use envshare.Prelude.{◌≡◌, refl, ◌++◌, replicate, length, Bytes, bytes_of, to_be_bytes, ok, arith}
use envshare.Crypto.Types.{PeerContext, OfferProofInput}
use envshare.Crypto.Transcript.{new, append_bytes, append_u16, append_u32, append_u64}
use envshare.Crypto.Kdf.{validate_context, validate_network_id}
use envshare.Crypto.Proof.{
  common_transcript, open_transcript, offer_transcript, acknowledgement_transcript,
}
use envshare.Crypto.Proof.Binding.{
  IsOfferProofInput, open_transcript-inj, offer_transcript-inj, acknowledgement_transcript-inj,
  transcripts_separate,
}

abbrev context : PeerContext
context = record {
  network_id = bytes_of "main";
  room_id = replicate 16 1;
  sender_peer_id = bytes_of "sender";
  receiver_peer_id = bytes_of "receiver";
}

abbrev input : OfferProofInput
input = record {
  context = context;
  receiver_nonce = replicate 32 2;
  sender_nonce = replicate 32 3;
  claim_id = replicate 16 4;
  expires_at_unix_ms = 1700000600000;
  content_type = 1;
  plaintext_length = 9;
  aead_nonce = replicate 24 5;
  ciphertext_digest = replicate 32 6;
}

input-IsOfferProofInput : IsOfferProofInput input
input-IsOfferProofInput = record {
  expires = omega arith;
  content = omega arith;
  plaintext = omega arith;
}

abbrev field : Bytes → Bytes
field bytes = to_be_bytes 4 (length bytes) ++ bytes

abbrev common : Bytes → Bytes
common domain =
    field domain
    ++ (to_be_bytes 2 1
        ++ (field context.network_id
            ++ (field context.room_id
                ++ (field context.sender_peer_id ++ field context.receiver_peer_id))))

abbrev opened : Bytes
opened = common (bytes_of "envshare/open/v1") ++ field input.receiver_nonce

open_run : open_transcript context input.receiver_nonce ≡ ok opened
unfolding open_transcript common_transcript validate_context validate_network_id new append_bytes
    append_u16 to_be_bytes
open_run = refl

abbrev offered : Bytes
offered =
    common (bytes_of "envshare/offer/v1")
    ++ (field input.receiver_nonce
        ++ (field input.sender_nonce
            ++ (field input.claim_id
                ++ (to_be_bytes 8 input.expires_at_unix_ms
                    ++ (to_be_bytes 2 input.content_type
                        ++ (to_be_bytes 4 input.plaintext_length
                            ++ (field input.aead_nonce ++ field input.ciphertext_digest)))))))

offer_run : offer_transcript input ≡ ok offered
unfolding offer_transcript common_transcript validate_context validate_network_id new append_bytes
    append_u16 to_be_bytes append_u64 append_u32
offer_run = refl

abbrev acknowledged : Bytes
acknowledged =
    common (bytes_of "envshare/ack/v1") ++ (field input.claim_id ++ field input.ciphertext_digest)

acknowledgement_run :
    acknowledgement_transcript context input.claim_id input.ciphertext_digest ≡ ok acknowledged
unfolding acknowledgement_transcript common_transcript validate_context validate_network_id new
    append_bytes append_u16 to_be_bytes
acknowledgement_run = refl

open_transcript-inj_example : (context ≡ context) × (input.receiver_nonce ≡ input.receiver_nonce)
open_transcript-inj_example =
    open_transcript-inj context context input.receiver_nonce input.receiver_nonce opened open_run
      open_run

offer_transcript-inj_example : input ≡ input
offer_transcript-inj_example =
    offer_transcript-inj input input offered input-IsOfferProofInput input-IsOfferProofInput
      offer_run offer_run

acknowledgement_transcript-inj_example :
    (context ≡ context)
    × (input.claim_id ≡ input.claim_id)
    × (input.ciphertext_digest ≡ input.ciphertext_digest)
acknowledgement_transcript-inj_example =
    acknowledgement_transcript-inj context context input.claim_id input.claim_id
      input.ciphertext_digest input.ciphertext_digest acknowledged acknowledgement_run
      acknowledgement_run

transcripts_separate_example :
    (¬ (
      (open_transcript context input.receiver_nonce ≡ ok opened)
      × (offer_transcript input ≡ ok opened)))
    × (¬ (
        (open_transcript context input.receiver_nonce ≡ ok opened)
        × (acknowledgement_transcript context input.claim_id input.ciphertext_digest ≡ ok opened)))
    × (¬ (
        (offer_transcript input ≡ ok opened)
        × (acknowledgement_transcript context input.claim_id input.ciphertext_digest ≡ ok opened)))
transcripts_separate_example =
    transcripts_separate context context input.receiver_nonce input.claim_id input.ciphertext_digest
      opened input input-IsOfferProofInput
