-- ===== src/Node/Discovery/Counts.antt =====
-- crates/node/src/rendezvous/store.rs: how many registrations a peer and a namespace have after one
-- is removed or stored.
use envshare.Prelude.{
  ◌≤◌, ◌<◌, ◌≡◌, refl, sym, ◌⊎◌, inl, inr, Bool, true, false, not, none, [], ◌∷◌, length, Bytes,
  bytes_eq, bytes_eq_iff, arith, Bool-cases, Option-cases, &&_iff,
}
use envshare.Node.Maps.{Entry, Map, get, contains_key, retain, remove, length-retain, length-remove}
use envshare.Node.Store.{
  Registration, Key, Store, same_key, remove_registration, remove_from_cookies,
}
use envshare.Node.Discovery.{count_peer, count_namespace}

abbrev pub Registrations : Type 0
Registrations = Map Key Registration

pub count_peer-retain :
    (peer : Bytes) (keep : Entry Key Registration → Bool) (m : Registrations)
    → count_peer peer (retain keep m) ≤ count_peer peer m
unfolding count_peer retain
count_peer-retain peer keep [] = omega arith
count_peer-retain peer keep (e ∷ m) = ground (arith, count_peer-retain peer keep m)

pub count_namespace-retain :
    (namespace : Bytes) (keep : Entry Key Registration → Bool) (m : Registrations)
    → count_namespace namespace (retain keep m) ≤ count_namespace namespace m
unfolding count_namespace retain
count_namespace-retain namespace keep [] = omega arith
count_namespace-retain namespace keep (e ∷ m) =
    ground (arith, count_namespace-retain namespace keep m)

bytes_eq_sym : (a b : Bytes) → bytes_eq a b ≡ true → bytes_eq b a ≡ true
bytes_eq_sym a b h = (bytes_eq_iff b a).1 (sym ((bytes_eq_iff a b).0 h))

same_key-peer :
    (a b : Key)
    → same_key a b ≡ true
    → (bytes_eq b.peer a.peer ≡ true) × (bytes_eq b.namespace a.namespace ≡ true)
unfolding same_key
same_key-peer a b h =
    let (p, n) = (&&_iff (bytes_eq a.peer b.peer) (bytes_eq a.namespace b.namespace)).0 h in
    (bytes_eq_sym a.peer b.peer p, bytes_eq_sym a.namespace b.namespace n)

count_peer-remove :
    (key : Key) (m : Registrations)
    → contains_key same_key key m ≡ true
    → count_peer key.peer (remove same_key key m) < count_peer key.peer m
unfolding count_peer remove retain contains_key
count_peer-remove key [] h = cc
count_peer-remove key (e ∷ m) h = elim (Bool-cases (same_key key e.key)) [
  | inl t ↦ ground (
    arith,
    t,
    (same_key-peer key e.key t).0,
    count_peer-retain key.peer (λ e'. not (same_key key e'.key)) m,
  )
  | inr f ↦ ground (arith, f, h, count_peer-remove key m)
]

count_namespace-remove :
    (key : Key) (m : Registrations)
    → contains_key same_key key m ≡ true
    → count_namespace key.namespace (remove same_key key m) < count_namespace key.namespace m
unfolding count_namespace remove retain contains_key
count_namespace-remove key [] h = cc
count_namespace-remove key (e ∷ m) h = elim (Bool-cases (same_key key e.key)) [
  | inl t ↦ ground (
    arith,
    t,
    (same_key-peer key e.key t).1,
    count_namespace-retain key.namespace (λ e'. not (same_key key e'.key)) m,
  )
  | inr f ↦ ground (arith, f, h, count_namespace-remove key m)
]

contains_key-get :
    (key : Key) (m : Registrations)
    → get same_key key m ≡ none
    → contains_key same_key key m ≡ false
unfolding get contains_key
contains_key-get key [] h = refl
contains_key-get key (e ∷ m) h = ground (arith, contains_key-get key m)

-- What is left of the registrations: all, if the key has none, or all others.
remove_registration-cases :
    (s : Store) (key : Key)
    → ((contains_key same_key key s.registrations ≡ false)
        × ((remove_registration s key).registrations ≡ s.registrations))
      ⊎ ((remove_registration s key).registrations ≡ remove same_key key s.registrations)
unfolding remove_registration remove_from_cookies
remove_registration-cases s key = elim (Option-cases (get same_key key s.registrations)) [
  | inl n ↦ inl (contains_key-get key s.registrations n, ground (arith, n))
  | inr (previous, q) ↦ inr (ground (arith, q))
]

-- No registration is left than were there before, and fewer if the key had one.
pub record Fewer (key : Key) (m rest : Registrations) : Type 0 where
  pub total : length rest ≤ length m
  pub peers : (peer : Bytes) → count_peer peer rest ≤ count_peer peer m
  pub namespaces :
      (namespace : Bytes) → count_namespace namespace rest ≤ count_namespace namespace m
  pub replaced :
      (contains_key same_key key m ≡ false)
      ⊎ ((length rest < length m)
          × (count_peer key.peer rest < count_peer key.peer m)
          × (count_namespace key.namespace rest < count_namespace key.namespace m))

removed-Fewer : (key : Key) (m : Registrations) → Fewer key m (remove same_key key m)
unfolding remove
removed-Fewer key m =
    let keep : Entry Key Registration → Bool = λ e. not (same_key key e.key) in
    record {
      total = length-retain keep m;
      peers = λ peer. count_peer-retain peer keep m;
      namespaces = λ namespace. count_namespace-retain namespace keep m;
      replaced = elim (Bool-cases (contains_key same_key key m)) [
        | inl t ↦ inr (
          length-remove same_key key m t,
          count_peer-remove key m t,
          count_namespace-remove key m t,
        )
        | inr f ↦ inl f
      ];
    }

pub remove_registration-Fewer :
    (s : Store) (key : Key) → Fewer key s.registrations (remove_registration s key).registrations
remove_registration-Fewer s key = elim (remove_registration-cases s key) [
  | inl (f, q) ↦ rw q (record {
    total = omega arith;
    peers = λ peer. omega arith;
    namespaces = λ namespace. omega arith;
    replaced = inl f;
  })
  | inr q ↦ rw q (removed-Fewer key s.registrations)
]
