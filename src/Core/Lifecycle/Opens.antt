-- ===== src/Core/Lifecycle/Opens.antt =====
-- crates/core/src/sender/actor.rs: when `handle_open` gives an offer, and what stays closed.
use envshare.Prelude.{
  ℕ, ◌≡◌, ap, sym, ◌∙◌, ◌⊎◌, inl, inr, true, false, Option, none, some, ◌==◌, ◌<◌, if◌then◌else◌,
  Bytes, bytes_eq_iff, Option-cases, Result-cases, ok, err, >>=-eq-ok, arith,
}
use envshare.Primitives.{Primitives}
use envshare.Protocol.Limits.{protocol_version}
use envshare.Protocol.Errors.{unsupported_version, not_found_or_unauthorized}
use envshare.Protocol.Message.{OpenRequest, OfferResponse}
use envshare.Crypto.Types.{DerivedRoot}
use envshare.Core.Sender.{
  available, preparing_offer, disclosed, BoundClaim, SenderActor, is_overdue, handle_timer,
  resume_offer, authenticates_open, is_same_receiver,
}
use envshare.Core.Offer.{Draws, build_claim, draw, prepare_offer, claim_offer, open_in, handle_open}
use envshare.Core.Direct.{is_terminal}
use envshare.Core.Lifecycle.{IsConsistent, HoldsIn, IsWiped}

module _ (P : Primitives) (checked_add : ℕ → ℕ → Option ℕ) {S : Type 0}
    (fill : S → ℕ → Option Bytes × S) where
  pub terminal-IsWiped : (a : SenderActor) → IsConsistent a → is_terminal a.state ≡ true → IsWiped a
  unfolding IsConsistent HoldsIn is_terminal
  terminal-IsWiped a h t = ground arith

  wiped-authenticates_open :
      (a : SenderActor) (peer : Bytes) (request : OpenRequest)
      → a.root ≡ none
      → authenticates_open P a peer request ≡ false
  unfolding authenticates_open
  wiped-authenticates_open a peer request h = ground arith

  -- Once a consistent actor is in a terminal state, `handle_open` refuses every request as
  -- unauthorized, or for its version, and neither it nor `handle_timer` changes the actor; no
  -- entropy is drawn.
  pub terminal-absorbs :
      (a : SenderActor) (peer : Bytes) (request : OpenRequest) (now : ℕ) (entropy : S)
      → IsConsistent a
      → is_terminal a.state ≡ true
      → (handle_open P checked_add fill a peer request now entropy ≡ (
        err (
            if request.protocol_version == protocol_version
            then not_found_or_unauthorized
            else unsupported_version),
        a,
        entropy,
      ))
        × (handle_timer a now ≡ a)
  unfolding handle_open handle_timer is_terminal
  terminal-absorbs a peer request now entropy h t = (
    ground (arith, wiped-authenticates_open a peer request (terminal-IsWiped a h t).0),
    ground arith,
  )

  -- An offer that answers an open.
  pub record Offered (a : SenderActor) (peer : Bytes) (request : OpenRequest) (now : ℕ)
      (o : OfferResponse) (a' : SenderActor) : Type 0 where
    pub version : request.protocol_version ≡ protocol_version
    pub authentic : authenticates_open P a peer request ≡ true
    pub disclosed_eq : a'.state ≡ disclosed
    pub claim : BoundClaim
    pub claim_eq : a'.claim ≡ some claim
    pub offer_eq : o ≡ claim.offer
    pub peer_eq : peer ≡ claim.receiver_peer_id
    pub nonce_eq : request.receiver_nonce ≡ claim.receiver_nonce
    -- It is the first offer, or the actor resumes the claim that it holds.
    pub origin :
        ((a.state ≡ available) × (now < a.available_deadline))
        ⊎ ((a.state ≡ disclosed) × (a' ≡ a) × (now < claim.resume_deadline))

  build_claim-binds :
      (a : SenderActor) (root : DerivedRoot) (plaintext peer : Bytes) (request : OpenRequest)
      (now : ℕ) (d : Draws) (c : BoundClaim)
      → build_claim P checked_add a root plaintext peer request now d ≡ ok c
      → (c.receiver_peer_id ≡ peer) × (c.receiver_nonce ≡ request.receiver_nonce)
  unfolding build_claim
  build_claim-binds a root plaintext peer request now d c h = ground arith

  -- What a prepared claim was built from.
  pub record Drawn (a : SenderActor) (peer : Bytes) (request : OpenRequest) (now : ℕ) (entropy : S)
      (c : BoundClaim) : Type 0 where
    pub root : DerivedRoot
    pub root_eq : a.root ≡ some root
    pub plaintext : Bytes
    pub plaintext_eq : a.encoded_envelope ≡ some plaintext
    pub draws : Draws
    pub draws_eq : (draw P checked_add fill entropy).0 ≡ ok draws
    pub claim_eq : build_claim P checked_add a root plaintext peer request now draws ≡ ok c

  pub prepare_offer-IsDrawn :
      (a : SenderActor) (peer : Bytes) (request : OpenRequest) (now : ℕ) (entropy : S)
      (c : BoundClaim)
      → (prepare_offer P checked_add fill a peer request now entropy).0 ≡ ok c
      → Drawn a peer request now entropy c
  unfolding prepare_offer
  prepare_offer-IsDrawn a peer request now entropy c h = elim (Option-cases a.root) [
    | inl n ↦ ground (arith, n, h)
    | inr (root, r) ↦ elim (Option-cases a.encoded_envelope) [
      | inl n ↦ ground (arith, n, r, h)
      | inr (plaintext, e) ↦
          let (d, q, k) =
            >>=-eq-ok (draw P checked_add fill entropy).0
              (build_claim P checked_add a root plaintext peer request now)
              (ground (arith, r, e, h)) in
          record {
            root = root;
            root_eq = r;
            plaintext = plaintext;
            plaintext_eq = e;
            draws = d;
            draws_eq = q;
            claim_eq = k;
          }
    ]
  ]

  claim_offer-Offered :
      (a : SenderActor) (peer : Bytes) (request : OpenRequest) (now : ℕ) (entropy : S)
      (o : OfferResponse)
      → (claim_offer P checked_add fill a peer request now entropy).0 ≡ ok o
      → (c : BoundClaim) × ((prepare_offer P checked_add fill
            (record a { state = preparing_offer })
            peer
            request
            now
            entropy).0
          ≡ ok c)
        × (o ≡ c.offer)
        × ((claim_offer P checked_add fill a peer request now entropy).1
            ≡ record a { state = disclosed; claim = some c })
  unfolding claim_offer
  claim_offer-Offered a peer request now entropy o h =
      elim (Result-cases
        (prepare_offer P checked_add fill (record a { state = preparing_offer }) peer request now
          entropy).0) [
            | inl (c, q) ↦ (c, q, ground (arith, q, h), ground (arith, q))
            | inr (e, q) ↦ ground (arith, q, h)
          ]

  resumes_claim :
      (a : SenderActor) (peer : Bytes) (request : OpenRequest) (now : ℕ) (o : OfferResponse)
      (c : BoundClaim)
      → a.claim ≡ some c
      → is_overdue a.claim now ≡ false
      → resume_offer a peer request ≡ ok o
      → (o ≡ c.offer)
        × (peer ≡ c.receiver_peer_id)
        × (request.receiver_nonce ≡ c.receiver_nonce)
        × (now < c.resume_deadline)
  unfolding resume_offer is_overdue is_same_receiver
  resumes_claim a peer request now o c e h k = ground (
    arith,
    bytes_eq_iff peer c.receiver_peer_id,
    bytes_eq_iff request.receiver_nonce c.receiver_nonce,
  )

  resumes :
      (a : SenderActor) (peer : Bytes) (request : OpenRequest) (o : OfferResponse)
      → resume_offer a peer request ≡ ok o
      → (c : BoundClaim) × (a.claim ≡ some c)
  unfolding resume_offer
  resumes a peer request o k = elim (Option-cases a.claim) [
    | inl n ↦ ground (arith, n, k)
    | inr (c, e) ↦ (c, e)
  ]

  open_in-Offered :
      (a : SenderActor) (peer : Bytes) (request : OpenRequest) (now : ℕ) (entropy : S)
      (o : OfferResponse)
      → (open_in P checked_add fill a.state a peer request now entropy).0 ≡ ok o
      → ((a.state ≡ available)
          × (now < a.available_deadline)
          × ((claim_offer P checked_add fill a peer request now entropy).0 ≡ ok o)
          × ((open_in P checked_add fill a.state a peer request now entropy).1
              ≡ (claim_offer P checked_add fill a peer request now entropy).1))
        ⊎ ((a.state ≡ disclosed)
            × (is_overdue a.claim now ≡ false)
            × (resume_offer a peer request ≡ ok o)
            × ((open_in P checked_add fill a.state a peer request now entropy).1 ≡ a))
  unfolding open_in
  open_in-Offered a peer request now entropy o h = ground arith

  opens :
      (a : SenderActor) (peer : Bytes) (request : OpenRequest) (now : ℕ) (entropy : S)
      (o : OfferResponse)
      → (handle_open P checked_add fill a peer request now entropy).0 ≡ ok o
      → (request.protocol_version ≡ protocol_version)
        × (authenticates_open P a peer request ≡ true)
        × (handle_open P checked_add fill a peer request now entropy
            ≡ open_in P checked_add fill a.state a peer request now entropy)
  unfolding handle_open
  opens a peer request now entropy o h = ground arith

  -- Every offer that `handle_open` gives answers an open of this version whose proof verifies, and
  -- leaves a disclosed actor whose claim has this offer, peer and nonce; the actor was available
  -- before its deadline, or it was disclosed before the resume deadline and is unchanged.
  pub handle_open-Offered :
      (a : SenderActor) (peer : Bytes) (request : OpenRequest) (now : ℕ) (entropy : S)
      (o : OfferResponse)
      → (handle_open P checked_add fill a peer request now entropy).0 ≡ ok o
      → Offered a peer request now o (handle_open P checked_add fill a peer request now entropy).1
  handle_open-Offered a peer request now entropy o h =
      let (version, authentic, e) = opens a peer request now entropy o h in
      rw e (elim (open_in-Offered a peer request now entropy o (ap (λ x. x.0) (sym e) ∙ h)) [
        | inl (available_eq, before, q, e') ↦
            let (c, prepared, offer_eq, a_eq) =
              claim_offer-Offered a peer request now entropy o q in
            let d =
              prepare_offer-IsDrawn (record a { state = preparing_offer }) peer request now entropy
                c prepared in
            let (peer_eq, nonce_eq) =
              build_claim-binds (record a { state = preparing_offer }) d.root d.plaintext peer
                request now d.draws c d.claim_eq in
            record {
              version = version;
              authentic = authentic;
              disclosed_eq = ap (λ x. x.state) (e' ∙ a_eq);
              claim = c;
              claim_eq = ap (λ x. x.claim) (e' ∙ a_eq);
              offer_eq = offer_eq;
              peer_eq = sym peer_eq;
              nonce_eq = sym nonce_eq;
              origin = inl (available_eq, before);
            }
        | inr (disclosed_eq, overdue, q, e') ↦
            let (c, claim_eq) = resumes a peer request o q in
            let (offer_eq, peer_eq, nonce_eq, before) =
              resumes_claim a peer request now o c claim_eq overdue q in
            record {
              version = version;
              authentic = authentic;
              disclosed_eq = ap (λ x. x.state) e' ∙ disclosed_eq;
              claim = c;
              claim_eq = ap (λ x. x.claim) e' ∙ claim_eq;
              offer_eq = offer_eq;
              peer_eq = peer_eq;
              nonce_eq = nonce_eq;
              origin = inr (disclosed_eq, e', before);
            }
      ])

  -- The offer of an available actor is the one that `prepare_offer` made.
  pub available-prepares :
      (a : SenderActor) (peer : Bytes) (request : OpenRequest) (now : ℕ) (entropy : S)
      (o : OfferResponse)
      → a.state ≡ available
      → (handle_open P checked_add fill a peer request now entropy).0 ≡ ok o
      → (c : BoundClaim) × ((prepare_offer P checked_add fill
            (record a { state = preparing_offer })
            peer
            request
            now
            entropy).0
          ≡ ok c)
        × (o ≡ c.offer)
        × ((handle_open P checked_add fill a peer request now entropy).1
            ≡ record a { state = disclosed; claim = some c })
  available-prepares a peer request now entropy o available_eq h =
      let (version, authentic, e) = opens a peer request now entropy o h in
      elim (open_in-Offered a peer request now entropy o (ap (λ x. x.0) (sym e) ∙ h)) [
        | inl (_, before, q, e') ↦
            let (c, prepared, offer_eq, a_eq) =
              claim_offer-Offered a peer request now entropy o q in
            (c, prepared, offer_eq, ap (λ x. x.1) e ∙ e' ∙ a_eq)
        | inr (disclosed_eq, overdue, q, e') ↦ absurd (cc (available_eq, disclosed_eq))
      ]
