-- ===== src/Node/Admission/Steps.antt =====
-- crates/node/src/admission.rs: sequences of admissions and closings.
use envshare.Prelude.{
  ℕ, ◌+◌, ◌≤◌, ◌<◌, ◌≡◌, refl, subst, inl, inr, false, not, ◌&&◌, some, Option, none, ap, ◌∙◌, List,
  [], ◌∷◌, leb, ◌==◌, length, All, arith, Bool-cases, Option-cases,
}
use envshare.Node.Maps.{get, remove, insert, length-retain, All-retain}
use envshare.Node.Admission.{
  IpAddr, same_ip, Protocol, source_ip, Behaviour, new, count, connections, is_recent, is_crowded,
  make_room, admit_ip, admit, release, FromSwarm, connection_established, connection_closed,
  listen_failure, ignored, establish, on_swarm_event,
}
use envshare.Node.Admission.Bounds.{
  IsWithin, IsSound, HasRoom, count-retain, count-remove, count-insert, take_attempt-IsSound,
  same_ip_eq, same_ip_refl,
}
use envshare.Node.Admission.Holding.{
  holder, admitted, announced, admit-holder, on_swarm_event-holder,
}
use envshare.Node.Admission.Counting.{used_by, charged, admit-used}
use envshare.Node.Admission.Limits.{
  HasLimits, SameLimits, SameLimits-refl, SameLimits-then, admit-SameLimits,
  on_swarm_event-SameLimits,
}

make_room-IsSound :
    (b : Behaviour) (ip : IpAddr) (now : ℕ) → IsSound b → IsSound (make_room b ip now)
unfolding make_room connections
make_room-IsSound b ip now h = elim (Bool-cases (is_crowded b ip)) [
  | inl t ↦ rw t (record {
    per_ip = h.per_ip;
    addresses = omega (arith, h.addresses, length-retain (λ e. is_recent now e.value) b.rate);
    attempts =
        All-retain (IsWithin b.attempts_per_minute) (λ e. is_recent now e.value) b.rate h.attempts;
  })
  | inr f ↦ rw f h
]

make_room-keeps :
    (b : Behaviour) (ip : IpAddr) (now : ℕ)
    → (connections (make_room b ip now) ip ≡ connections b ip)
      × ((make_room b ip now).max_connections_per_ip ≡ b.max_connections_per_ip)
      × ((make_room b ip now).max_rate_ips ≡ b.max_rate_ips)
unfolding make_room connections
make_room-keeps b ip now = elim (Bool-cases (is_crowded b ip)) [
  | inl t ↦ rw t (refl, refl, refl)
  | inr f ↦ rw f (refl, refl, refl)
]

make_room-HasRoom :
    (b : Behaviour) (ip : IpAddr) (now : ℕ)
    → IsSound b
    → (is_crowded b ip && length (make_room b ip now).rate == b.max_rate_ips) ≡ false
    → HasRoom (make_room b ip now) ip
unfolding make_room is_crowded
make_room-HasRoom b ip now h k =
    ground (arith, h.addresses, length-retain (λ e. is_recent now e.value) b.rate)

admit_ip-IsSound :
    (b : Behaviour) (id : ℕ) (ip : IpAddr) (now : ℕ) → IsSound b → IsSound (admit_ip b id ip now).1
unfolding admit_ip
admit_ip-IsSound b id ip now h =
    elim (Bool-cases (leb b.max_connections_per_ip (connections b ip))) [
      | inl t ↦ rw t h
      | inr f ↦
          let roomy = make_room b ip now in
          let h' = make_room-IsSound b ip now h in
          let (same, limit, _) = make_room-keeps b ip now in
          rw f (elim (Bool-cases (is_crowded b ip && length roomy.rate == b.max_rate_ips)) [
            | inl t ↦ rw t h'
            | inr g ↦ rw g (
                take_attempt-IsSound roomy id ip now h' (rw (same, limit) (ground (arith, f)))
                  (make_room-HasRoom b ip now h g))
          ])
    ]

-- `admit` keeps the limits, whether it admits the connection or refuses it.
pub admit-IsSound :
    (b : Behaviour) (id : ℕ) (address : List Protocol) (now : ℕ)
    → IsSound b
    → IsSound (admit b id address now).1
unfolding admit
admit-IsSound b id address now h = elim (Option-cases (source_ip address)) [
  | inl n ↦ rw (n, admit) h
  | inr (ip, q) ↦ rw (q, admit) (admit_ip-IsSound b id ip now h)
]

release-IsSound : (b : Behaviour) (id : ℕ) → IsSound b → IsSound (release b id)
unfolding release connections remove
release-IsSound b id h = record {
  per_ip = λ ip. omega (
    arith,
    h.per_ip ip,
    count-retain ip (λ e. not (id == e.key)) b.pending,
    count-retain ip (λ e. not (id == e.key)) b.established,
  );
  addresses = h.addresses;
  attempts = h.attempts;
}

moved-le :
    (b : Behaviour) (id : ℕ) (ip other : IpAddr)
    → get ◌==◌ id b.pending ≡ some ip
    → count other (remove ◌==◌ id b.pending) + count other (insert ◌==◌ id ip b.established)
      ≤ connections b other
unfolding connections remove
moved-le b id ip other q = elim (Bool-cases (same_ip ip other)) [
  | inl t ↦
      let same = same_ip_eq ip other t in
      let fewer = count-remove id ip b.pending q (same_ip_refl ip) in
      let fewer' : count other (remove ◌==◌ id b.pending) < count other b.pending =
        subst (λ x. count x (remove ◌==◌ id b.pending) < count x b.pending) same fewer in
      omega (arith, fewer', (count-insert id other ip b.established).0 t)
  | inr f ↦ omega (arith, (count-insert id other ip b.established).1 f, removed)
]
  where
    removed : count other (remove ◌==◌ id b.pending) ≤ count other b.pending
    removed = count-retain other (λ e. not (id == e.key)) b.pending

establish-IsSound : (b : Behaviour) (id : ℕ) → IsSound b → IsSound (establish b id)
unfolding establish connections
establish-IsSound b id h = elim (Option-cases (get ◌==◌ id b.pending)) [
  | inl n ↦ rw (n, establish) h
  | inr (ip, q) ↦
      rw (q, establish)
        (record {
          per_ip = λ other. omega (arith, h.per_ip other, moved-le b id ip other q);
          addresses = h.addresses;
          attempts = h.attempts;
        })
]

on_swarm_event-IsSound :
    (b : Behaviour) (event : FromSwarm) → IsSound b → IsSound (on_swarm_event b event)
unfolding on_swarm_event
on_swarm_event-IsSound b (connection_established id) h = establish-IsSound b id h
on_swarm_event-IsSound b (connection_closed id) h = release-IsSound b id h
on_swarm_event-IsSound b (listen_failure id) h = release-IsSound b id h
on_swarm_event-IsSound b ignored h = h

new-IsSound : (per_ip per_minute addresses : ℕ) → IsSound (new per_ip per_minute addresses)
unfolding new connections count
new-IsSound per_ip per_minute addresses = record {
  per_ip = λ ip. omega arith;
  addresses = omega arith;
  attempts = tt;
}

-- The behaviour has these limits, and its state is within them.
pub record IsBounded (per_ip per_minute addresses : ℕ) (b : Behaviour) : Type 0 where
  pub limits : HasLimits per_ip per_minute addresses b
  pub connections_le : (ip : IpAddr) → connections b ip ≤ per_ip
  pub addresses_le : length b.rate ≤ addresses
  pub attempts_le : All (IsWithin per_minute) b.rate

-- What the swarm asks of the behaviour.
pub data Step : Type 0 where
  pending_inbound : (id : ℕ) (address : List Protocol) (now : ℕ) → Step
  swarm_event : FromSwarm → Step

unfoldable pub steps : Behaviour → List Step → Behaviour
steps b [] = b
steps b (pending_inbound id address now ∷ rest) = steps (admit b id address now).1 rest
steps b (swarm_event event ∷ rest) = steps (on_swarm_event b event) rest

steps-keeps : (b : Behaviour) (rest : List Step) → IsSound b → IsSound (steps b rest)
unfolding steps
steps-keeps b [] h = h
steps-keeps b (pending_inbound id address now ∷ rest) h =
    steps-keeps (admit b id address now).1 rest (admit-IsSound b id address now h)
steps-keeps b (swarm_event event ∷ rest) h =
    steps-keeps (on_swarm_event b event) rest (on_swarm_event-IsSound b event h)

steps-SameLimits : (b : Behaviour) (rest : List Step) → SameLimits b (steps b rest)
unfolding steps
steps-SameLimits b [] = SameLimits-refl b
steps-SameLimits b (pending_inbound id address now ∷ rest) =
    SameLimits-then b (admit b id address now).1 _ (admit-SameLimits b id address now)
      (steps-SameLimits (admit b id address now).1 rest)
steps-SameLimits b (swarm_event event ∷ rest) =
    SameLimits-then b (on_swarm_event b event) _ (on_swarm_event-SameLimits b event)
      (steps-SameLimits (on_swarm_event b event) rest)

IsSound-IsBounded :
    (per_ip per_minute addresses : ℕ) (b : Behaviour)
    → HasLimits per_ip per_minute addresses b
    → IsSound b
    → IsBounded per_ip per_minute addresses b
IsSound-IsBounded per_ip per_minute addresses b limits sound = record {
  limits = limits;
  connections_le = λ ip. subst (λ n. connections b ip ≤ n) limits.per_ip_eq (sound.per_ip ip);
  addresses_le = subst (λ n. length b.rate ≤ n) limits.addresses_eq sound.addresses;
  attempts_le = subst (λ n. All (IsWithin n) b.rate) limits.per_minute_eq sound.attempts;
}

-- The address of a connection after some steps: that of its last admission, if it was neither
-- closed nor failed since.
unfoldable pub held : ℕ → Option IpAddr → Behaviour → List Step → Option IpAddr
held id before b [] = before
held id before b (pending_inbound id' address now ∷ rest) =
    let (answer, b') = admit b id' address now in
    held id (admitted id id' (source_ip address) answer before) b' rest
held id before b (swarm_event event ∷ rest) =
    held id (announced id before event) (on_swarm_event b event) rest

steps-holder :
    (id : ℕ) (b : Behaviour) (rest : List Step)
    → holder (steps b rest) id ≡ held id (holder b id) b rest
unfolding steps held
steps-holder id b [] = refl
steps-holder id b (pending_inbound id' address now ∷ rest) =
    let (answer, b') = admit b id' address now in
    steps-holder id b' rest
    ∙ ap (λ before. held id before b' rest) (admit-holder b id' address now id)
steps-holder id b (swarm_event event ∷ rest) =
    let b' = on_swarm_event b event in
    steps-holder id b' rest
    ∙ ap (λ before. held id before b' rest) (on_swarm_event-holder b event id)

-- Over any sequence of connections and swarm events, a behaviour that `new` makes for three limits
-- still has these limits, never has more connections of one address, pending and established, than
-- the first, a higher count of attempts for an address than the second, nor more addresses in its
-- rate table than the third; each connection is kept under the address that it was last admitted
-- from, until it is closed or fails; and any further admission, but no refusal, adds one to the
-- count of the address in its window.
pub steps-IsBounded :
    (per_ip per_minute addresses : ℕ) (rest : List Step)
    → IsBounded per_ip per_minute addresses (steps (new per_ip per_minute addresses) rest)
      × ((id : ℕ)
          → holder (steps (new per_ip per_minute addresses) rest) id
            ≡ held id none (new per_ip per_minute addresses) rest)
      × ((id : ℕ) (address : List Protocol) (now : ℕ)
          → used_by
              (admit (steps (new per_ip per_minute addresses) rest) id address now).1
              (source_ip address)
              now
            ≡ charged
                (admit (steps (new per_ip per_minute addresses) rest) id address now).0
                (used_by (steps (new per_ip per_minute addresses) rest) (source_ip address) now))
unfolding new holder get
steps-IsBounded per_ip per_minute addresses rest =
    let b = new per_ip per_minute addresses in
    (
      IsSound-IsBounded per_ip per_minute addresses (steps b rest) (steps-SameLimits b rest)
          (steps-keeps b rest (new-IsSound per_ip per_minute addresses)),
      λ id. steps-holder id b rest,
      admit-used (steps b rest),
    )
