-- ===== src/Node/Admission.antt =====
-- crates/node/src/admission.rs: the admission of connections by source address. An Instant is a
-- number of nanoseconds; `status` only counts the refusals, and `duration_since` stops at zero.
pub mod Bounds
mod Limits
pub mod Holding
pub mod Counting
pub mod Steps
use envshare.Prelude.{
  ℕ, zero, suc, ◌+◌, ◌-◌, ◌*◌, Bool, true, false, not, ◌&&◌, Option, none, some, List, [], ◌∷◌, leb,
  ltb, ◌==◌, if◌then◌else◌, length, Result, ok, err,
}
use envshare.Node.Maps.{Entry, Map, get, contains_key, retain, remove, insert}

pub data IpAddr : Type 0 where
  v4 v6 : ℕ → IpAddr

unfoldable pub same_ip : IpAddr → IpAddr → Bool
same_ip (v4 a) (v4 b) = a == b
same_ip (v6 a) (v6 b) = a == b
same_ip _ _ = false

-- A component of a Multiaddr; `other` stands for those that `source_ip` skips.
pub data Protocol : Type 0 where
  ip4 ip6 : ℕ → Protocol
  other : Protocol

pub source_ip : List Protocol → Option IpAddr
source_ip [] = none
source_ip (ip4 ip ∷ address) = some (v4 ip)
source_ip (ip6 ip ∷ address) = some (v6 ip)
source_ip (other ∷ address) = source_ip address

pub record RateBucket : Type 0 where
  pub started : ℕ
  pub attempts : ℕ

abbrev rate_window : ℕ
rate_window = 60 * 1000000000

pub record Behaviour : Type 0 where
  pub max_connections_per_ip : ℕ
  pub attempts_per_minute : ℕ
  pub max_rate_ips : ℕ
  pub pending : Map ℕ IpAddr
  pub established : Map ℕ IpAddr
  pub rate : Map IpAddr RateBucket

pub data AdmissionDenied : Type 0 where
  denied : AdmissionDenied

-- `Behaviour::new`
unfoldable pub new : ℕ → ℕ → ℕ → Behaviour
new max_connections_per_ip attempts_per_minute max_rate_ips = record {
  max_connections_per_ip = max_connections_per_ip;
  attempts_per_minute = attempts_per_minute;
  max_rate_ips = max_rate_ips;
  pending = [];
  established = [];
  rate = [];
}

-- The values of a map that are this address.
unfoldable pub count : IpAddr → Map ℕ IpAddr → ℕ
count ip [] = 0
count ip (e ∷ m) = let rest = count ip m in if same_ip e.value ip then suc rest else rest

pub connections : Behaviour → IpAddr → ℕ
unfolding count
connections b ip = count ip b.pending + count ip b.established

pub is_recent : ℕ → RateBucket → Bool
is_recent now bucket = ltb (now - bucket.started) rate_window

pub is_crowded : Behaviour → IpAddr → Bool
is_crowded b ip = not (contains_key same_ip ip b.rate) && length b.rate == b.max_rate_ips

-- `self.rate.retain(..)` when there is no room for a new address.
pub make_room : Behaviour → IpAddr → ℕ → Behaviour
unfolding is_crowded is_recent
make_room b ip now =
    if is_crowded b ip then record b { rate = retain (λ e. is_recent now e.value) b.rate } else b

abbrev bucket_or : Option RateBucket → RateBucket → RateBucket
bucket_or none d = d
bucket_or (some bucket) d = bucket

-- The entry of the address, or a new one; it starts again after a window.
pub current_bucket : Behaviour → IpAddr → ℕ → RateBucket
current_bucket b ip now =
    let fresh : RateBucket = record { started = now; attempts = 0 } in
    let bucket = bucket_or (get same_ip ip b.rate) fresh in
    if leb rate_window (now - bucket.started) then fresh else bucket

-- `admit` from the bucket on.
pub take_attempt : Behaviour → ℕ → IpAddr → ℕ → Result AdmissionDenied (Unit {0}) × Behaviour
unfolding current_bucket
take_attempt b connection_id ip now =
    let bucket = current_bucket b ip now in
    if leb b.attempts_per_minute bucket.attempts
    then (err denied, record b { rate = insert same_ip ip bucket b.rate })
    else (
      ok tt,
      record b {
        rate = insert same_ip ip (record bucket { attempts = bucket.attempts + 1 }) b.rate;
        pending = insert ◌==◌ connection_id ip b.pending;
      },
    )

pub admit_ip : Behaviour → ℕ → IpAddr → ℕ → Result AdmissionDenied (Unit {0}) × Behaviour
unfolding make_room take_attempt connections
admit_ip b connection_id ip now =
    if leb b.max_connections_per_ip (connections b ip)
    then (err denied, b)
    else let roomy = make_room b ip now in
      if is_crowded b ip && length roomy.rate == b.max_rate_ips
      then (err denied, roomy)
      else take_attempt roomy connection_id ip now

unfoldable pub admit :
    Behaviour → ℕ → List Protocol → ℕ → Result AdmissionDenied (Unit {0}) × Behaviour
unfolding admit_ip source_ip
admit b connection_id remote_addr now = elim (source_ip remote_addr) [
  | none ↦ (err denied, b)
  | some ip ↦ admit_ip b connection_id ip now
]

pub release : Behaviour → ℕ → Behaviour
release b connection_id = record b {
  pending = remove ◌==◌ connection_id b.pending;
  established = remove ◌==◌ connection_id b.established;
}

-- `ignored` stands for the events of the swarm that are not handled.
pub data FromSwarm : Type 0 where
  connection_established connection_closed listen_failure : (connection_id : ℕ) → FromSwarm
  ignored : FromSwarm

pub establish : Behaviour → ℕ → Behaviour
establish b connection_id = elim (get ◌==◌ connection_id b.pending) [
  | none ↦ b
  | some ip ↦ record b {
    pending = remove ◌==◌ connection_id b.pending;
    established = insert ◌==◌ connection_id ip b.established;
  }
]

pub on_swarm_event : Behaviour → FromSwarm → Behaviour
unfolding establish release
on_swarm_event b (connection_established connection_id) = establish b connection_id
on_swarm_event b (connection_closed connection_id) = release b connection_id
on_swarm_event b (listen_failure connection_id) = release b connection_id
on_swarm_event b ignored = b
