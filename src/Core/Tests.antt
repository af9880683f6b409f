-- ===== src/Core/Tests.antt =====
-- Runs and instances for crates/core, with the sample codec and cryptography.
use envshare.Prelude.{
  ℕ, suc, ◌+◌, ◌≡◌, refl, ◌↔◌, true, Option, none, some, List, [], ◌∷◌, replicate, Bytes, bytes_of,
  bytes_eq, to_be_bytes, Result, ok, err, arith,
}
use envshare.Primitives.Sample.{toy, toy-IsAead}
use envshare.Cbor.Sample.{sample, sample-IsCbor}
use envshare.Protocol.Limits.{protocol_version}
use envshare.Protocol.Errors.{not_found_or_unauthorized}
use envshare.Protocol.Envelope.{SecretEnvelope, dotenv_raw}
use envshare.Protocol.Envelope
use envshare.Protocol.Envelope.Codec.{IsEnvelope, unnamed}
use envshare.Protocol.Message.{OpenRequest, OfferResponse, open_request}
use envshare.Crypto.Types.{DerivedRoot}
use envshare.Crypto.Transcript.{new, append_bytes, append_u16, append_u32, append_u64}
use envshare.Crypto.Kdf.{validate_context, validate_network_id, session_info, derive_session}
use envshare.Crypto.Proof.{
  common_transcript, authenticate, open_transcript, open_proof, offer_transcript, offer_proof,
  acknowledgement_transcript, acknowledgement_proof,
}
use envshare.Crypto.Aead.{payload_associated_data, encrypt_payload, ciphertext_digest}
use envshare.Core.Sender.{
  SenderActor, available, expired, consumed, authenticates_open, handle_timer,
  handle_acknowledgement,
}
use envshare.Core.Offer.{handle_open, claim_offer}
use envshare.Core.Offer
use envshare.Core.Receiver.{ReceiverSession, VerifiedOffer, verify_offer}
use envshare.Core.Receiver
use envshare.Core.Direct.{Turn, tick, received, inbound_request, run}
use envshare.Core.Direct
use envshare.Core.Direct.Returns.{Returned, run-Returned}
use envshare.Core.Direct.SingleUse.{IsSingleUse, run-IsSingleUse}
use envshare.Core.Lifecycle.{
  IsConsistent, IsWiped, new-IsConsistent, handle_open-IsConsistent, handle_timer-IsConsistent,
}
use envshare.Core.Lifecycle.Answers.{
  Acknowledges, handle_acknowledgement_iff, handle_acknowledgement-consumes,
}
use envshare.Core.Lifecycle.Opens.{Offered, handle_open-Offered, terminal-absorbs}
use envshare.Core.Receiver.Authentic.{Authentic, verify_offer-Authentic}
use envshare.Core.Transfer.EndToEnd.{Delivered, open-Delivered, open-reaches-claim_offer}

abbrev root : DerivedRoot
root = record {
  room_id = replicate 16 1;
  authentication_key = replicate 32 2;
  session_base_key = replicate 32 3;
}

abbrev envelope : SecretEnvelope
envelope = record {
  content_type = dotenv_raw;
  suggested_name = none;
  created_at_unix_ms = 5;
  expires_at_unix_ms = 9;
  payload = bytes_of "A=1";
}

envelope-IsEnvelope : IsEnvelope sample envelope
envelope-IsEnvelope = record {
  name = unnamed;
  size = omega arith;
  timestamps = omega arith;
  expires = omega arith;
}

-- Entropy that counts its calls, and a clock that ends at 2 ^ 64.
abbrev fill : ℕ → ℕ → Option Bytes × ℕ
fill calls size = (some (replicate size calls), suc calls)

abbrev checked_add : ℕ → ℕ → Option ℕ
checked_add a b = some (a + b)

abbrev network_id : Bytes
network_id = bytes_of "main"

abbrev sender_peer_id : Bytes
sender_peer_id = bytes_of "sender"

abbrev receiver_peer_id : Bytes
receiver_peer_id = bytes_of "receiver"

abbrev actor : SenderActor
actor = record {
  state = available;
  root = some root;
  room_id = root.room_id;
  network_id = network_id;
  sender_peer_id = sender_peer_id;
  encoded_envelope = some (Envelope.body sample envelope);
  content_type = 0;
  plaintext_length = 3;
  expires_at_unix_ms = 9;
  available_deadline = 100;
  resume_duration = 50;
  claim = none;
}

made : Offer.new sample root network_id sender_peer_id envelope 100 50 ≡ ok actor
unfolding Offer.new Envelope.encode Envelope.body sample Envelope.content_type_as_u8
made = refl

abbrev session : ReceiverSession
session = record {
  root = root;
  network_id = network_id;
  sender_peer_id = sender_peer_id;
  receiver_peer_id = receiver_peer_id;
  receiver_nonce = replicate 32 8;
}

abbrev proof : Bytes
proof = replicate 32 140

abbrev request : OpenRequest
request = record {
  protocol_version = 1;
  room_id = root.room_id;
  receiver_nonce = replicate 32 8;
  receiver_proof = proof;
}

requested : Receiver.open_request toy session ≡ ok request
unfolding Receiver.open_request open_proof open_transcript validate_context validate_network_id
    common_transcript new append_bytes append_u16 to_be_bytes authenticate
requested = refl

abbrev given {ℓ} : {E : Type 0} {A : Type ℓ} → Result E A → A → A
given (ok a) d = a
given (err e) d = d

abbrev no_offer : OfferResponse
no_offer = record {
  protocol_version = 0;
  claim_id = [];
  sender_nonce = [];
  aead_nonce = [];
  expires_at_unix_ms = 0;
  content_type = 0;
  plaintext_length = 0;
  ciphertext = [];
  ciphertext_digest = [];
  sender_proof = [];
}

abbrev first_offer : OfferResponse
first_offer =
    given (handle_open toy checked_add fill actor receiver_peer_id request 10 0).0 no_offer

offered : (handle_open toy checked_add fill actor receiver_peer_id request 10 0).0 ≡ ok first_offer
unfolding handle_open authenticates_open bytes_eq open_proof open_transcript validate_context
    validate_network_id common_transcript new append_bytes append_u16 to_be_bytes authenticate
    Offer.open_in Offer.claim_offer Offer.prepare_offer Offer.draw Offer.build_claim derive_session
    session_info payload_associated_data append_u64 append_u32 encrypt_payload offer_proof
    offer_transcript ciphertext_digest acknowledgement_proof acknowledgement_transcript
offered = refl

session_new :
    Receiver.new root network_id sender_peer_id receiver_peer_id (replicate 32 8) ≡ ok session
unfolding Receiver.new
session_new = refl

abbrev claimed : SenderActor
claimed = (handle_open toy checked_add fill actor receiver_peer_id request 10 0).1

actor-IsConsistent : IsConsistent actor
actor-IsConsistent =
    (new-IsConsistent sample root network_id sender_peer_id envelope 100 50 actor made).0

handle_open-IsConsistent_example : IsConsistent claimed
handle_open-IsConsistent_example =
    handle_open-IsConsistent toy checked_add fill actor receiver_peer_id request 10 0
      actor-IsConsistent

claimed-IsConsistent : IsConsistent claimed
claimed-IsConsistent =
    handle_open-IsConsistent toy checked_add fill actor receiver_peer_id request 10 0
      actor-IsConsistent

handle_open-Offered_example :
    Offered toy checked_add fill actor receiver_peer_id request 10 first_offer claimed
handle_open-Offered_example =
    handle_open-Offered toy checked_add fill actor receiver_peer_id request 10 0 first_offer offered

open-Delivered_example : Delivered toy sample session first_offer envelope claimed receiver_peer_id
open-Delivered_example =
    open-Delivered toy toy-IsAead sample sample-IsCbor checked_add fill root network_id
      sender_peer_id receiver_peer_id (replicate 32 8) envelope 100 50 10 0 actor session request
      first_offer envelope-IsEnvelope made session_new requested offered

delivery : Delivered toy sample session first_offer envelope claimed receiver_peer_id
delivery =
    open-Delivered toy toy-IsAead sample sample-IsCbor checked_add fill root network_id
      sender_peer_id receiver_peer_id (replicate 32 8) envelope 100 50 10 0 actor session request
      first_offer envelope-IsEnvelope made session_new requested offered

open-reaches-claim_offer_example :
    handle_open toy checked_add fill actor receiver_peer_id request 10 0
    ≡ claim_offer toy checked_add fill actor receiver_peer_id request 10 0
open-reaches-claim_offer_example =
    open-reaches-claim_offer toy toy-IsAead sample sample-IsCbor checked_add fill root network_id
      sender_peer_id receiver_peer_id (replicate 32 8) envelope 100 50 10 0 actor session request
      made session_new requested (omega arith)

verify_offer-Authentic_example : Authentic toy session first_offer delivery.verified
verify_offer-Authentic_example =
    verify_offer-Authentic toy session first_offer sample delivery.verified delivery.verified_eq

handle_acknowledgement_iff_example :
    ((handle_acknowledgement claimed receiver_peer_id delivery.verified.acknowledgement).0
      ≡ ok (record {
        protocol_version = protocol_version;
        claim_id = delivery.verified.acknowledgement.claim_id;
      }))
    ↔ Acknowledges claimed receiver_peer_id delivery.verified.acknowledgement
handle_acknowledgement_iff_example =
    handle_acknowledgement_iff claimed receiver_peer_id delivery.verified.acknowledgement

handle_acknowledgement-consumes_example :
    let (answer, a') =
      handle_acknowledgement claimed receiver_peer_id delivery.verified.acknowledgement in
    (a'.state ≡ consumed)
    × (a'.claim ≡ claimed.claim)
    × IsWiped a'
    × (handle_acknowledgement a' receiver_peer_id delivery.verified.acknowledgement ≡ (answer, a'))
handle_acknowledgement-consumes_example =
    handle_acknowledgement-consumes claimed receiver_peer_id delivery.verified.acknowledgement
      claimed-IsConsistent delivery.accepted

abbrev turns : List Turn
turns =
    received (inbound_request receiver_peer_id 0 (open_request request)) 10 true
    ∷ received (inbound_request receiver_peer_id 1 (open_request request)) 11 true
    ∷ tick 200
    ∷ []

run-IsSingleUse_example : IsSingleUse (run toy checked_add fill actor 0 turns).1
run-IsSingleUse_example = run-IsSingleUse toy checked_add fill actor 0 turns actor-IsConsistent

abbrev late : List Turn
late = tick 50 ∷ tick 150 ∷ []

late_expires : (run toy checked_add fill actor 0 late).0 ≡ some (ok expired)
unfolding run handle_timer
late_expires = refl

run-Returned_example : Returned expired late (run toy checked_add fill actor 0 late).2
run-Returned_example =
    run-Returned toy checked_add fill actor 0 late expired actor-IsConsistent late_expires

abbrev closed : SenderActor
closed = handle_timer actor 150

closed_state : Direct.is_terminal closed.state ≡ true
unfolding handle_timer Direct.is_terminal
closed_state = refl

terminal-absorbs_example :
    (handle_open toy checked_add fill closed receiver_peer_id request 160 0
      ≡ (err not_found_or_unauthorized, closed, 0))
    × (handle_timer closed 160 ≡ closed)
terminal-absorbs_example =
    terminal-absorbs toy checked_add fill closed receiver_peer_id request 160 0
      (handle_timer-IsConsistent actor 150 actor-IsConsistent) closed_state
