-- ===== src/Node/Admission/Counting.antt =====
-- crates/node/src/admission.rs: the attempts that are counted in the window of an address.
use envshare.Prelude.{
  ℕ, suc, ◌+◌, ◌-◌, ◌≡◌, refl, inl, inr, Bool, true, false, ◌&&◌, Option, none, some, [], ◌∷◌, List,
  leb, ltb, ◌==◌, if◌then◌else◌, length, arith, Bool-cases, Option-cases, Result, ok, err,
}
use envshare.Node.Maps.{Entry, Map, get, contains_key, retain, insert}
use envshare.Node.Admission.{
  IpAddr, same_ip, Protocol, source_ip, RateBucket, rate_window, Behaviour, AdmissionDenied, denied,
  connections, is_recent, is_crowded, make_room, current_bucket, take_attempt, admit_ip, admit,
}
use envshare.Node.Admission.Bounds.{same_ip_refl}

abbrev used_in : ℕ → Option RateBucket → ℕ
used_in now none = 0
used_in now (some bucket) = if ltb (now - bucket.started) rate_window then bucket.attempts else 0

-- How many attempts of an address are counted in a window that is not over.
pub used : Behaviour → IpAddr → ℕ → ℕ
used b ip now = used_in now (get same_ip ip b.rate)

-- The same for the address that a connection comes from, if it has one.
pub used_by : Behaviour → Option IpAddr → ℕ → ℕ
unfolding used
used_by b none now = 0
used_by b (some ip) now = used b ip now

-- An admission is counted, a refusal is not.
pub charged : Result AdmissionDenied (Unit {0}) → ℕ → ℕ
charged (ok _) n = suc n
charged (err _) n = n

get-none :
    (ip : IpAddr) (m : Map IpAddr RateBucket)
    → contains_key same_ip ip m ≡ false
    → get same_ip ip m ≡ none
unfolding get contains_key
get-none ip [] h = refl
get-none ip (e ∷ m) h = ground (arith, get-none ip m)

contains_key-retain :
    (ip : IpAddr) (keep : Entry IpAddr RateBucket → Bool) (m : Map IpAddr RateBucket)
    → contains_key same_ip ip m ≡ false
    → contains_key same_ip ip (retain keep m) ≡ false
unfolding contains_key retain
contains_key-retain ip keep [] h = refl
contains_key-retain ip keep (e ∷ m) h = ground (arith, contains_key-retain ip keep m)

is_crowded-absent :
    (b : Behaviour) (ip : IpAddr) → is_crowded b ip ≡ true → contains_key same_ip ip b.rate ≡ false
unfolding is_crowded
is_crowded-absent b ip h = ground (arith, h)

make_room-used :
    (b : Behaviour) (ip : IpAddr) (now : ℕ) → used (make_room b ip now) ip now ≡ used b ip now
unfolding make_room used
make_room-used b ip now = elim (Bool-cases (is_crowded b ip)) [
  | inl t ↦
      let absent = is_crowded-absent b ip t in
      rw
        (
          t,
          get-none ip b.rate absent,
          get-none ip (retain (λ e. is_recent now e.value) b.rate)
              (contains_key-retain ip (λ e. is_recent now e.value) b.rate absent),
        )
        refl
  | inr f ↦ rw f refl
]

-- The bucket that the attempt is counted in is that of a window that is not over.
current_bucket-used :
    (b : Behaviour) (ip : IpAddr) (now : ℕ)
    → ((current_bucket b ip now).attempts ≡ used b ip now)
      × (ltb (now - (current_bucket b ip now).started) rate_window ≡ true)
unfolding current_bucket used
current_bucket-used b ip now = elim (Option-cases (get same_ip ip b.rate)) [
  | inl n ↦ rw n (ground arith)
  | inr (bucket, q) ↦ rw q (ground arith)
]

get-inserted :
    (ip : IpAddr) (bucket : RateBucket) (m : Map IpAddr RateBucket)
    → get same_ip ip (insert same_ip ip bucket m) ≡ some bucket
unfolding get insert
get-inserted ip bucket m = ground (arith, same_ip_refl ip)

take_attempt-used :
    (b : Behaviour) (id : ℕ) (ip : IpAddr) (now : ℕ)
    → used (take_attempt b id ip now).1 ip now
      ≡ charged (take_attempt b id ip now).0 (used b ip now)
unfolding take_attempt used charged
take_attempt-used b id ip now =
    let bucket = current_bucket b ip now in
    let (same, recent) = current_bucket-used b ip now in
    elim (Bool-cases (leb b.attempts_per_minute bucket.attempts)) [
      | inl t ↦ rw t (ground (arith, same, recent, get-inserted ip bucket b.rate))
      | inr f ↦ rw f (
          ground (
            arith,
            same,
            recent,
            get-inserted ip (record bucket { attempts = bucket.attempts + 1 }) b.rate,
          ))
    ]

admit_ip-used :
    (b : Behaviour) (id : ℕ) (ip : IpAddr) (now : ℕ)
    → used (admit_ip b id ip now).1 ip now ≡ charged (admit_ip b id ip now).0 (used b ip now)
unfolding admit_ip charged
admit_ip-used b id ip now =
    let roomy = make_room b ip now in
    let made = make_room-used b ip now in
    elim (Bool-cases (leb b.max_connections_per_ip (connections b ip))) [
      | inl t ↦ rw t refl
      | inr f ↦ rw f (elim (Bool-cases (is_crowded b ip && length roomy.rate == b.max_rate_ips)) [
        | inl t ↦ rw t made
        | inr g ↦ rw g (rw made at (take_attempt-used roomy id ip now))
      ])
    ]

addressed :
    (b : Behaviour) (id : ℕ) (address : List Protocol) (now : ℕ) (ip : IpAddr)
    → source_ip address ≡ some ip
    → admit b id address now ≡ admit_ip b id ip now
unfolding admit
addressed b id address now ip q = rw (q, admit) refl

unaddressed :
    (b : Behaviour) (id : ℕ) (address : List Protocol) (now : ℕ)
    → source_ip address ≡ none
    → admit b id address now ≡ (err denied, b)
unfolding admit
unaddressed b id address now n = rw (n, admit) refl

pub admit-used :
    (b : Behaviour) (id : ℕ) (address : List Protocol) (now : ℕ)
    → used_by (admit b id address now).1 (source_ip address) now
      ≡ charged (admit b id address now).0 (used_by b (source_ip address) now)
unfolding charged used_by
admit-used b id address now = elim (Option-cases (source_ip address)) [
  | inl n ↦ rw (unaddressed b id address now n, n) refl
  | inr (ip, q) ↦ rw (addressed b id address now ip q, q) (admit_ip-used b id ip now)
]
