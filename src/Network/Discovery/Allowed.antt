-- ===== src/Network/Discovery/Allowed.antt =====
-- crates/network/src/discovery.rs: what the classification of an address allows.
use envshare.Prelude.{
  ◌≡◌, ◌≢◌, subst, inl, inr, Bool, false, ◌||◌, some, List, [], ◌∷◌, is_empty, All, Bytes, arith,
  Bool-cases, Option-cases,
}
use envshare.Network.Multiaddr.{Protocol}
use envshare.Network.Discovery.{
  RouteKind, relay, relay_only, CandidatePolicy, any_protocol, is_refused, is_private,
  behind_circuit, classify_direct, classify_protocols, is_relay_only,
}

any_protocol_none :
    (test : Protocol → Bool) (protocols : List Protocol)
    → any_protocol test protocols ≡ false
    → All (λ p. test p ≡ false) protocols
unfolding any_protocol
any_protocol_none test [] h = tt
any_protocol_none test (p ∷ protocols) h = elim (Bool-cases (test p)) [
  | inl t ↦ cc (rw t at h)
  | inr f ↦ (f, any_protocol_none test protocols (rw f at h))
]

-- What makes an address one that may be dialed under the policy, as a route of this kind.
pub record IsAllowed (policy : CandidatePolicy) (protocols : List Protocol) (kind : RouteKind)
    : Type 0 where
  pub resolved : All (λ p. is_refused p ≡ false) protocols
  pub hidden : policy.privacy ≡ relay_only → kind ≡ relay
  pub circuit : kind ≡ relay → (rest : List Protocol) × (behind_circuit protocols ≡ some rest)
  pub reachable :
      policy.allow_lan ≡ false → kind ≢ relay → All (λ p. is_private p ≡ false) protocols

private_refused :
    (protocols : List Protocol) (peer : Bytes) (policy : CandidatePolicy) (kind : RouteKind)
    → classify_direct protocols peer policy ≡ some kind
    → policy.allow_lan ≡ false
    → any_protocol is_private protocols ≡ false
unfolding classify_direct
private_refused protocols peer policy kind h closed = ground (arith, h, closed)

classify_direct-kind :
    (protocols : List Protocol) (peer : Bytes) (policy : CandidatePolicy) (kind : RouteKind)
    → classify_direct protocols peer policy ≡ some kind
    → (kind ≢ relay) × (is_relay_only policy.privacy ≡ false)
unfolding classify_direct
classify_direct-kind protocols peer policy kind h = (λ e. ground (arith, h, e), ground (arith, h))

pub classify_protocols-IsAllowed :
    (protocols : List Protocol) (peer : Bytes) (policy : CandidatePolicy) (kind : RouteKind)
    → classify_protocols protocols peer policy ≡ some kind
    → IsAllowed policy protocols kind
unfolding classify_protocols
classify_protocols-IsAllowed protocols peer policy kind h =
    elim (Bool-cases (is_empty protocols || any_protocol is_refused protocols)) [
      | inl t ↦ cc (rw (t, classify_protocols) at h)
      | inr f ↦
          let resolved = any_protocol_none is_refused protocols (ground (arith, f)) in
          elim (Option-cases (behind_circuit protocols)) [
            | inl n ↦
                let direct : classify_direct protocols peer policy ≡ some kind =
                  rw (n, classify_protocols) at (rw (f, classify_protocols) at h) in
                let (no_relay, exposed) = classify_direct-kind protocols peer policy kind direct in
                record {
                  resolved = resolved;
                  hidden = λ e. cc (subst (λ m. is_relay_only m ≡ false) e exposed);
                  circuit = λ e. absurd (no_relay e);
                  reachable = λ closed _.
                      any_protocol_none is_private protocols
                        (private_refused protocols peer policy kind direct closed);
                }
            | inr (rest, q) ↦
                let is_relay : kind ≡ relay = ground (arith, f, q, h) in
                record {
                  resolved = resolved;
                  hidden = λ _. is_relay;
                  circuit = λ _. (rest, q);
                  reachable = λ _ no. absurd (no is_relay);
                }
          ]
    ]
