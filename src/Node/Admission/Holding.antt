-- ===== src/Node/Admission/Holding.antt =====
-- crates/node/src/admission.rs: which connection is counted for which address.
use envshare.Prelude.{
  ℕ, ◌≡◌, refl, inl, inr, ◌&&◌, Option, none, some, List, [], ◌∷◌, leb, ◌==◌, if◌then◌else◌, length,
  arith, Bool-cases, Option-cases, Result, ok, err,
}
use envshare.Node.Maps.{Map, get, retain, remove, insert}
use envshare.Node.Admission.{
  IpAddr, Protocol, source_ip, Behaviour, AdmissionDenied, connections, is_crowded, make_room,
  current_bucket, take_attempt, admit_ip, admit, release, FromSwarm, connection_established,
  connection_closed, listen_failure, ignored, establish, on_swarm_event,
}

abbrev either_of : Option IpAddr → Option IpAddr → Option IpAddr
either_of none o = o
either_of (some ip) o = some ip

-- The address that the connection is counted for, pending or established.
unfoldable pub holder : Behaviour → ℕ → Option IpAddr
holder b id = either_of (get ◌==◌ id b.pending) (get ◌==◌ id b.established)

-- The address of a connection after the answer to the connection of an id.
pub admitted :
    ℕ → ℕ → Option IpAddr → Result AdmissionDenied (Unit {0}) → Option IpAddr → Option IpAddr
admitted id id' ip (ok _) before = if id == id' then ip else before
admitted id id' ip (err _) before = before

-- The address of a connection after an event of the swarm.
pub announced : ℕ → Option IpAddr → FromSwarm → Option IpAddr
announced id before (connection_closed id') = if id == id' then none else before
announced id before (listen_failure id') = if id == id' then none else before
announced id before _ = before

get-remove :
    (id id' : ℕ) (m : Map ℕ IpAddr)
    → get ◌==◌ id (remove ◌==◌ id' m) ≡ (if id == id' then none else get ◌==◌ id m)
unfolding get remove retain
get-remove id id' [] = ground arith
get-remove id id' (e ∷ m) = ground (arith, get-remove id id' m)

get-insert :
    (id id' : ℕ) (ip : IpAddr) (m : Map ℕ IpAddr)
    → get ◌==◌ id (insert ◌==◌ id' ip m) ≡ (if id == id' then some ip else get ◌==◌ id m)
unfolding get insert
get-insert id id' ip m = ground (arith, get-remove id id' m)

make_room-holder :
    (b : Behaviour) (ip : IpAddr) (now id : ℕ) → holder (make_room b ip now) id ≡ holder b id
unfolding make_room holder
make_room-holder b ip now id = elim (Bool-cases (is_crowded b ip)) [
  | inl t ↦ rw t refl
  | inr f ↦ rw f refl
]

take_attempt-holder :
    (b : Behaviour) (id' : ℕ) (ip : IpAddr) (now id : ℕ)
    → holder (take_attempt b id' ip now).1 id
      ≡ admitted id id' (some ip) (take_attempt b id' ip now).0 (holder b id)
unfolding take_attempt holder admitted
take_attempt-holder b id' ip now id =
    elim (Bool-cases (leb b.attempts_per_minute (current_bucket b ip now).attempts)) [
      | inl t ↦ rw t refl
      | inr f ↦ rw f (ground (arith, get-insert id id' ip b.pending))
    ]

admit_ip-holder :
    (b : Behaviour) (id' : ℕ) (ip : IpAddr) (now id : ℕ)
    → holder (admit_ip b id' ip now).1 id
      ≡ admitted id id' (some ip) (admit_ip b id' ip now).0 (holder b id)
unfolding admit_ip admitted
admit_ip-holder b id' ip now id =
    let roomy = make_room b ip now in
    let made = make_room-holder b ip now id in
    elim (Bool-cases (leb b.max_connections_per_ip (connections b ip))) [
      | inl t ↦ rw t refl
      | inr f ↦ rw f (elim (Bool-cases (is_crowded b ip && length roomy.rate == b.max_rate_ips)) [
        | inl t ↦ rw t made
        | inr g ↦ rw g (rw made at (take_attempt-holder roomy id' ip now id))
      ])
    ]

pub admit-holder :
    (b : Behaviour) (id' : ℕ) (address : List Protocol) (now id : ℕ)
    → holder (admit b id' address now).1 id
      ≡ admitted id id' (source_ip address) (admit b id' address now).0 (holder b id)
unfolding admit admitted
admit-holder b id' address now id = elim (Option-cases (source_ip address)) [
  | inl n ↦ rw (n, admit, admitted) refl
  | inr (ip, q) ↦ rw (q, admit) (admit_ip-holder b id' ip now id)
]

release-holder :
    (b : Behaviour) (id' id : ℕ)
    → holder (release b id') id ≡ (if id == id' then none else holder b id)
unfolding release holder
release-holder b id' id =
    ground (arith, get-remove id id' b.pending, get-remove id id' b.established)

establish-holder : (b : Behaviour) (id' id : ℕ) → holder (establish b id') id ≡ holder b id
unfolding establish holder
establish-holder b id' id = elim (Option-cases (get ◌==◌ id' b.pending)) [
  | inl n ↦ rw (n, establish) refl
  | inr (ip, q) ↦
      rw (q, establish)
        (ground (arith, q, get-remove id id' b.pending, get-insert id id' ip b.established))
]

pub on_swarm_event-holder :
    (b : Behaviour) (event : FromSwarm) (id : ℕ)
    → holder (on_swarm_event b event) id ≡ announced id (holder b id) event
unfolding on_swarm_event announced
on_swarm_event-holder b (connection_established id') id = establish-holder b id' id
on_swarm_event-holder b (connection_closed id') id = release-holder b id' id
on_swarm_event-holder b (listen_failure id') id = release-holder b id' id
on_swarm_event-holder b ignored id = refl
