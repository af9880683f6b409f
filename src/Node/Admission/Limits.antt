-- ===== src/Node/Admission/Limits.antt =====
-- crates/node/src/admission.rs: an admission and an event of the swarm leave the limits as they are.
use envshare.Prelude.{
  ℕ, ◌≡◌, refl, ◌∙◌, inl, inr, ◌&&◌, List, leb, ◌==◌, length, Bool-cases, Option-cases,
}
use envshare.Node.Maps.{get}
use envshare.Node.Admission.{
  IpAddr, Protocol, source_ip, Behaviour, connections, is_crowded, make_room, current_bucket,
  take_attempt, admit_ip, admit, release, FromSwarm, connection_established, connection_closed,
  listen_failure, ignored, establish, on_swarm_event,
}

-- The limits that the behaviour was made with.
pub record HasLimits (per_ip per_minute addresses : ℕ) (b : Behaviour) : Type 0 where
  pub per_ip_eq : b.max_connections_per_ip ≡ per_ip
  pub per_minute_eq : b.attempts_per_minute ≡ per_minute
  pub addresses_eq : b.max_rate_ips ≡ addresses

-- A state with the limits of another.
abbrev pub SameLimits : Behaviour → Behaviour → Type 0
SameLimits b = HasLimits b.max_connections_per_ip b.attempts_per_minute b.max_rate_ips

pub SameLimits-refl : (b : Behaviour) → SameLimits b b
SameLimits-refl b = record { per_ip_eq = refl; per_minute_eq = refl; addresses_eq = refl }

pub SameLimits-then : (a b c : Behaviour) → SameLimits a b → SameLimits b c → SameLimits a c
SameLimits-then a b c h k = record {
  per_ip_eq = k.per_ip_eq ∙ h.per_ip_eq;
  per_minute_eq = k.per_minute_eq ∙ h.per_minute_eq;
  addresses_eq = k.addresses_eq ∙ h.addresses_eq;
}

make_room-SameLimits : (b : Behaviour) (ip : IpAddr) (now : ℕ) → SameLimits b (make_room b ip now)
unfolding make_room
make_room-SameLimits b ip now = elim (Bool-cases (is_crowded b ip)) [
  | inl t ↦ rw t (record { per_ip_eq = refl; per_minute_eq = refl; addresses_eq = refl })
  | inr f ↦ rw f (SameLimits-refl b)
]

take_attempt-SameLimits :
    (b : Behaviour) (id : ℕ) (ip : IpAddr) (now : ℕ) → SameLimits b (take_attempt b id ip now).1
unfolding take_attempt
take_attempt-SameLimits b id ip now =
    elim (Bool-cases (leb b.attempts_per_minute (current_bucket b ip now).attempts)) [
      | inl t ↦ rw t (record { per_ip_eq = refl; per_minute_eq = refl; addresses_eq = refl })
      | inr f ↦ rw f (record { per_ip_eq = refl; per_minute_eq = refl; addresses_eq = refl })
    ]

admit_ip-SameLimits :
    (b : Behaviour) (id : ℕ) (ip : IpAddr) (now : ℕ) → SameLimits b (admit_ip b id ip now).1
unfolding admit_ip
admit_ip-SameLimits b id ip now =
    let roomy = make_room b ip now in
    let made = make_room-SameLimits b ip now in
    elim (Bool-cases (leb b.max_connections_per_ip (connections b ip))) [
      | inl t ↦ rw t (SameLimits-refl b)
      | inr f ↦ rw f (elim (Bool-cases (is_crowded b ip && length roomy.rate == b.max_rate_ips)) [
        | inl t ↦ rw t made
        | inr g ↦ rw g (SameLimits-then b roomy _ made (take_attempt-SameLimits roomy id ip now))
      ])
    ]

pub admit-SameLimits :
    (b : Behaviour) (id : ℕ) (address : List Protocol) (now : ℕ)
    → SameLimits b (admit b id address now).1
unfolding admit
admit-SameLimits b id address now = elim (Option-cases (source_ip address)) [
  | inl n ↦ rw (n, admit) (SameLimits-refl b)
  | inr (ip, q) ↦ rw (q, admit) (admit_ip-SameLimits b id ip now)
]

pub on_swarm_event-SameLimits :
    (b : Behaviour) (event : FromSwarm) → SameLimits b (on_swarm_event b event)
unfolding on_swarm_event establish release
on_swarm_event-SameLimits b (connection_established id) =
    elim (Option-cases (get ◌==◌ id b.pending)) [
      | inl n ↦ rw (n, establish) (SameLimits-refl b)
      | inr (ip, q) ↦
          rw (q, establish) (record { per_ip_eq = refl; per_minute_eq = refl; addresses_eq = refl })
    ]
on_swarm_event-SameLimits b (connection_closed id) = record {
  per_ip_eq = refl;
  per_minute_eq = refl;
  addresses_eq = refl;
}
on_swarm_event-SameLimits b (listen_failure id) = record {
  per_ip_eq = refl;
  per_minute_eq = refl;
  addresses_eq = refl;
}
on_swarm_event-SameLimits b ignored = SameLimits-refl b
