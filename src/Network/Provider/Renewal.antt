-- ===== src/Network/Provider/Renewal.antt =====
-- crates/network/src/discovery.rs and crates/node/src/rendezvous/store.rs: the delay between renewals,
-- and the registrations of the node when it has passed.
use envshare.Prelude.{
  ℕ, ◌+◌, ◌^◌, ◌≤◌, ◌<◌, ◌≡◌, refl, sym, subst, ◌∙◌, inl, inr, true, false, some, List, [], ◌∷◌,
  leb, All, Bytes, bytes_eq_iff, bytes_eq_refl, arith, Bool-cases, Option-cases,
}
use envshare.Node.Maps.{Map, get, contains_key, retain, remove, insert}
use envshare.Node.Store.{
  Registration, Key, Store, same_key, remove_registration, remove_from_cookies,
}
use envshare.Node.Discovery.{seconds, store_registration, expired, remove_all, expire}
use envshare.Network.Provider.{renewal_delay}

abbrev Registrations : Type 0
Registrations = Map Key Registration

same_key-eq : (a b : Key) → same_key a b ≡ true → a ≡ b
unfolding same_key
same_key-eq a b h =
    ground (arith, h, bytes_eq_iff a.peer b.peer, bytes_eq_iff a.namespace b.namespace)

same_key_refl : (a : Key) → same_key a a ≡ true
unfolding same_key
same_key_refl a = rw (bytes_eq_refl a.peer) (bytes_eq_refl a.namespace)

same_key_swap : (a b : Key) → same_key a b ≡ false → same_key b a ≡ false
same_key_swap a b f = elim (Bool-cases (same_key b a)) [
  | inl t ↦ cc (subst (λ k. same_key a k ≡ true) (sym (same_key-eq b a t)) (same_key_refl a), f)
  | inr g ↦ g
]

abbrev IsOther : Key → Key → Type 0
IsOther key k = same_key key k ≡ false

get-remove :
    (key k : Key) (m : Registrations)
    → IsOther key k
    → get same_key key (remove same_key k m) ≡ get same_key key m
unfolding get remove retain
get-remove key k [] o = refl
get-remove key k (e ∷ m) o = elim (Bool-cases (same_key key e.key)) [
  | inl hit ↦
      let miss : same_key k e.key ≡ false =
        subst (λ x. same_key k x ≡ false) (same_key-eq key e.key hit) (same_key_swap key k o) in
      rw miss (rw hit refl)
  | inr f ↦ ground (arith, f, get-remove key k m o)
]

remove_registration_other :
    (key k : Key) (s : Store)
    → IsOther key k
    → get same_key key (remove_registration s k).registrations ≡ get same_key key s.registrations
unfolding remove_registration remove_from_cookies
remove_registration_other key k s o = elim (Option-cases (get same_key k s.registrations)) [
  | inl n ↦ rw (n, remove_registration) refl
  | inr (previous, q) ↦ rw (q, remove_registration) (get-remove key k s.registrations o)
]

remove_all_others :
    (key : Key) (keys : List Key) (s : Store)
    → All (IsOther key) keys
    → get same_key key (remove_all s keys).1.registrations ≡ get same_key key s.registrations
unfolding remove_all
remove_all_others key [] s h = refl
remove_all_others key (k ∷ keys) s (o, h) =
    let rest =
      remove_all_others key keys (remove_registration s k) h
      ∙ remove_registration_other key k s o in
    elim (Bool-cases (contains_key same_key k s.registrations)) [
      | inl t ↦ rw t rest
      | inr f ↦ rw f rest
    ]

expired_others :
    (key : Key) (now : ℕ) (m : Registrations)
    → All (λ e. IsOther key e.key) m
    → All (IsOther key) (expired now m)
unfolding expired
expired_others key now [] h = tt
expired_others key now (e ∷ m) (o, h) = elim (Bool-cases (leb e.value.expires_at now)) [
  | inl t ↦ rw t (o, expired_others key now m h)
  | inr f ↦ rw f (expired_others key now m h)
]

remove_leaves :
    (key : Key) (m : Registrations) → All (λ e. IsOther key e.key) (remove same_key key m)
unfolding remove retain
remove_leaves key [] = tt
remove_leaves key (e ∷ m) = elim (Bool-cases (same_key key e.key)) [
  | inl t ↦ rw t (remove_leaves key m)
  | inr f ↦ rw f (f, remove_leaves key m)
]

-- The renewal comes after a second at least, and before the time to live is over.
renewal_delay_bounds :
    (ttl : ℕ) → 2 ≤ ttl → ttl < 2 ^ 64 → (1 ≤ renewal_delay ttl) × (renewal_delay ttl < ttl)
unfolding renewal_delay
renewal_delay_bounds ttl low high = omega arith

not_expired :
    (s : Store) (key : Key) (signed_record : Bytes) (ttl now later : ℕ)
    → later < now + seconds ttl
    → All
        (IsOther key)
        (expired later (store_registration s key signed_record ttl now).registrations)
unfolding expired store_registration insert
not_expired s key signed_record ttl now later h =
    let open_ : leb (now + seconds ttl) later ≡ false = ground arith in
    let m = (remove_registration s key).registrations in
    rw open_ (expired_others key later (remove same_key key m) (remove_leaves key m))

stored :
    (s : Store) (key : Key) (signed_record : Bytes) (ttl now : ℕ)
    → get same_key key (store_registration s key signed_record ttl now).registrations
      ≡ some (record {
        id = (remove_registration s key).next_registration;
        signed_record = signed_record;
        ttl = ttl;
        expires_at = now + seconds ttl;
      })
unfolding store_registration insert get
stored s key signed_record ttl now = rw (same_key_refl key) refl

-- A registration of at least two seconds that the store has made is still there, unchanged, when
-- the client comes to renew it after `renewal_delay`.
pub expire-renewal_delay :
    (s : Store) (key : Key) (signed_record : Bytes) (ttl now : ℕ)
    → 2 ≤ ttl
    → ttl < 2 ^ 64
    → get same_key key
        (expire
          (store_registration s key signed_record ttl now)
          (now + seconds (renewal_delay ttl))).1.registrations
      ≡ some (record {
        id = (remove_registration s key).next_registration;
        signed_record = signed_record;
        ttl = ttl;
        expires_at = now + seconds ttl;
      })
unfolding expire
expire-renewal_delay s key signed_record ttl now low high =
    let t = store_registration s key signed_record ttl now in
    let later = now + seconds (renewal_delay ttl) in
    remove_all_others key (expired later t.registrations) t (
      not_expired s key signed_record ttl now later
        (omega (arith, renewal_delay_bounds ttl low high)))
    ∙ stored s key signed_record ttl now
