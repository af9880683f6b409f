-- ===== src/Node/Admission/Bounds.antt =====
-- crates/node/src/admission.rs: the limits on connections and attempts, and one attempt.
use envshare.Prelude.{
  ℕ, ◌+◌, ◌≤◌, ◌<◌, ◌≡◌, refl, subst, ◌⊎◌, inl, inr, Bool, true, false, not, some, [], ◌∷◌, leb,
  ◌==◌, length, All, arith, Bool-cases, Option-cases,
}
use envshare.Node.Maps.{
  Entry, Map, get, contains_key, retain, remove, insert, length-insert, All-retain,
}
use envshare.Node.Admission.{
  IpAddr, v4, v6, same_ip, RateBucket, Behaviour, count, connections, current_bucket, take_attempt,
}

pub IsWithin : ℕ → Entry IpAddr RateBucket → Type 0
IsWithin limit e = e.value.attempts ≤ limit

-- The state is within the limits that it holds.
pub record IsSound (b : Behaviour) : Type 0 where
  -- No address has more connections, pending and established, than allowed.
  pub per_ip : (ip : IpAddr) → connections b ip ≤ b.max_connections_per_ip
  -- The rate table has no more addresses than allowed, each with no more attempts than allowed.
  pub addresses : length b.rate ≤ b.max_rate_ips
  pub attempts : All (IsWithin b.attempts_per_minute) b.rate

same_ip_trans : (a b c : IpAddr) → same_ip a b ≡ true → same_ip a c ≡ same_ip b c
unfolding same_ip
same_ip_trans (v4 a) (v4 b) (v4 c) h = ground arith
same_ip_trans (v6 a) (v6 b) (v6 c) h = ground arith
same_ip_trans (v4 a) (v4 b) (v6 c) h = refl
same_ip_trans (v6 a) (v6 b) (v4 c) h = refl
same_ip_trans (v4 a) (v6 b) c h = cc
same_ip_trans (v6 a) (v4 b) c h = cc

pub same_ip_eq : (a b : IpAddr) → same_ip a b ≡ true → a ≡ b
unfolding same_ip
same_ip_eq (v4 a) (v4 b) h = ground arith
same_ip_eq (v6 a) (v6 b) h = ground arith
same_ip_eq (v4 a) (v6 b) h = cc
same_ip_eq (v6 a) (v4 b) h = cc

pub same_ip_refl : (ip : IpAddr) → same_ip ip ip ≡ true
unfolding same_ip
same_ip_refl (v4 a) = ground arith
same_ip_refl (v6 a) = ground arith

pub count-retain :
    (ip : IpAddr) (keep : Entry ℕ IpAddr → Bool) (m : Map ℕ IpAddr)
    → count ip (retain keep m) ≤ count ip m
unfolding count retain
count-retain ip keep [] = omega arith
count-retain ip keep (e ∷ m) = ground (arith, count-retain ip keep m)

-- The address of a connection that is removed is counted once less.
pub count-remove :
    (id : ℕ) (ip : IpAddr) (m : Map ℕ IpAddr)
    → get ◌==◌ id m ≡ some ip
    → same_ip ip ip ≡ true
    → count ip (remove ◌==◌ id m) < count ip m
unfolding count remove retain get
count-remove id ip [] h r = cc
count-remove id ip (e ∷ m) h r =
    ground (arith, count-remove id ip m, count-retain ip (λ e'. not (id == e'.key)) m)

pub count-insert :
    (id : ℕ) (ip ip' : IpAddr) (m : Map ℕ IpAddr)
    → (same_ip ip' ip ≡ true → count ip (insert ◌==◌ id ip' m) ≤ count ip m + 1)
      × (same_ip ip' ip ≡ false → count ip (insert ◌==◌ id ip' m) ≤ count ip m)
unfolding count insert remove
count-insert id ip ip' m = ground (arith, count-retain ip (λ e'. not (id == e'.key)) m)

get-IsWithin :
    (limit : ℕ) (ip : IpAddr) (m : Map IpAddr RateBucket) (bucket : RateBucket)
    → All (IsWithin limit) m
    → get same_ip ip m ≡ some bucket
    → bucket.attempts ≤ limit
unfolding get IsWithin
get-IsWithin limit ip [] bucket h q = cc
get-IsWithin limit ip (e ∷ m) bucket h q = ground (arith, get-IsWithin limit ip m bucket)

current_bucket-le :
    (b : Behaviour) (ip : IpAddr) (now : ℕ)
    → All (IsWithin b.attempts_per_minute) b.rate
    → (current_bucket b ip now).attempts ≤ b.attempts_per_minute
unfolding current_bucket
current_bucket-le b ip now h = elim (Option-cases (get same_ip ip b.rate)) [
  | inl n ↦ ground (arith, n)
  | inr (bucket, q) ↦ ground (arith, q, get-IsWithin b.attempts_per_minute ip b.rate bucket h q)
]

-- Room for the address in the rate table.
abbrev pub HasRoom : Behaviour → IpAddr → Type 0
HasRoom b ip = (contains_key same_ip ip b.rate ≡ true) ⊎ (length b.rate < b.max_rate_ips)

pending-le :
    (b : Behaviour) (id : ℕ) (ip other : IpAddr)
    → connections b other ≤ b.max_connections_per_ip
    → connections b ip < b.max_connections_per_ip
    → count other (insert ◌==◌ id ip b.pending) + count other b.established
      ≤ b.max_connections_per_ip
unfolding connections
pending-le b id ip other h k = elim (Bool-cases (same_ip ip other)) [
  | inl t ↦
      let same = same_ip_eq ip other t in
      let more = (count-insert id other ip b.pending).0 t in
      let room : count other b.pending + count other b.established < b.max_connections_per_ip =
        subst (λ x. count x b.pending + count x b.established < b.max_connections_per_ip) same k in
      omega (arith, more, room)
  | inr f ↦ omega (arith, (count-insert id other ip b.pending).1 f)
]

inserted-IsWithin :
    (limit : ℕ) (ip : IpAddr) (bucket : RateBucket) (m : Map IpAddr RateBucket)
    → bucket.attempts ≤ limit
    → All (IsWithin limit) m
    → All (IsWithin limit) (insert same_ip ip bucket m)
unfolding insert remove IsWithin
inserted-IsWithin limit ip bucket m h k =
    (h, All-retain (IsWithin limit) (λ e. not (same_ip ip e.key)) m k)

pub take_attempt-IsSound :
    (b : Behaviour) (id : ℕ) (ip : IpAddr) (now : ℕ)
    → IsSound b
    → connections b ip < b.max_connections_per_ip
    → HasRoom b ip
    → IsSound (take_attempt b id ip now).1
unfolding take_attempt connections
take_attempt-IsSound b id ip now h k room =
    let bucket = current_bucket b ip now in
    elim (Bool-cases (leb b.attempts_per_minute bucket.attempts)) [
      | inl t ↦ rw t (record {
        per_ip = h.per_ip;
        addresses = length-insert same_ip ip bucket b.rate b.max_rate_ips h.addresses room;
        attempts =
            inserted-IsWithin b.attempts_per_minute ip bucket b.rate
              (current_bucket-le b ip now h.attempts) h.attempts;
      })
      | inr f ↦
          let bucket' : RateBucket = record bucket { attempts = bucket.attempts + 1 } in
          rw f (record {
            per_ip = λ other. pending-le b id ip other (h.per_ip other) k;
            addresses = length-insert same_ip ip bucket' b.rate b.max_rate_ips h.addresses room;
            attempts =
                inserted-IsWithin b.attempts_per_minute ip bucket' b.rate (ground (arith, f))
                  h.attempts;
          })
    ]
