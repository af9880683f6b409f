-- ===== src/Node/Discovery/Calls.antt =====
-- crates/node/src/rendezvous/store.rs: sequences of calls of the store, and a rule for what all of
-- them keep.
use envshare.Prelude.{ℕ, ◌≡◌, inl, inr, Bool-cases, Result-cases, Option, List, [], ◌∷◌, Bytes, ok}
use envshare.Node.Maps.{contains_key}
use envshare.Node.Address.{valid_namespace}
use envshare.Node.Store.{
  Key, Store, Request, register_request, unregister_request, discover_request, Operation, same_key,
  admit, remove_registration,
}
use envshare.Node.Discovery.{
  unregister, serve, asked, discover, expired, remove_all, expire, PeerRecord, check_registration,
  store_registration, register, operation_of, dispatch, handle,
}

module _ (signed_record_of : Bytes → Option PeerRecord) where
  -- A call of the store.
  pub data Call : Type 0 where
    handling : (peer : Bytes) (request : Request) (now : ℕ) → Call
    expiring : (now : ℕ) → Call

  unfoldable pub calls : Store → List Call → Store
  calls s [] = s
  calls s (handling peer request now ∷ rest) =
      calls (handle signed_record_of s peer request now).1 rest
  calls s (expiring now ∷ rest) = calls (expire s now).1 rest

  -- Kept by each step that changes the store.
  pub record IsInvariant (P : Store → Type 0) : Type 0 where
    pub admits :
        (s : Store) (peer : Bytes) (operation : Operation) (now : ℕ)
        → P s
        → P (admit s peer operation now).1
    pub removes : (s : Store) (key : Key) → P s → P (remove_registration s key)
    pub serves :
        (s : Store) (peer namespace : Bytes) (seen : List ℕ) (limit : Option ℕ)
        → P s
        → P (serve s peer namespace seen limit).1
    pub registers :
        (s : Store) (peer namespace signed_record : Bytes) (requested : Option ℕ) (ttl now : ℕ)
        → check_registration signed_record_of s peer namespace signed_record requested ≡ ok ttl
        → P s
        → P (
            store_registration s
              (record { peer = peer; namespace = namespace })
              signed_record
              ttl
              now)

  module _ (P : Store → Type 0) (inv : IsInvariant P) where
    remove_all_keeps : (s : Store) (keys : List Key) → P s → P (remove_all s keys).1
    unfolding remove_all
    remove_all_keeps s [] h = h
    remove_all_keeps s (key ∷ keys) h =
        let rest = remove_all_keeps (remove_registration s key) keys (inv.removes s key h) in
        elim (Bool-cases (contains_key same_key key s.registrations)) [
          | inl t ↦ rw t rest
          | inr f ↦ rw f rest
        ]

    dispatch_keeps :
        (s : Store) (peer : Bytes) (request : Request) (now : ℕ)
        → P s
        → P (dispatch signed_record_of s peer request now).1
    unfolding dispatch register unregister discover
    dispatch_keeps s peer (register_request namespace signed_record ttl) now h =
        elim (Result-cases
          (check_registration signed_record_of s peer namespace signed_record ttl)) [
            | inl (t, q) ↦
                rw (q, register) (inv.registers s peer namespace signed_record ttl t now q h)
            | inr (status, q) ↦ rw (q, register) h
          ]
    dispatch_keeps s peer (unregister_request namespace) now h =
        elim (Bool-cases (valid_namespace namespace)) [
          | inl t ↦ rw t (inv.removes s (record { peer = peer; namespace = namespace }) h)
          | inr f ↦ rw f h
        ]
    dispatch_keeps s peer (discover_request namespace cookie limit) now h =
        elim (Result-cases (asked s namespace cookie)) [
          | inl (found, q) ↦ rw (q, discover) (inv.serves s peer found.0 found.1 limit h)
          | inr (status, q) ↦ rw (q, discover) h
        ]

    handle_keeps :
        (s : Store) (peer : Bytes) (request : Request) (now : ℕ)
        → P s
        → P (handle signed_record_of s peer request now).1
    unfolding handle
    handle_keeps s peer request now h =
        let (admitted, s') = admit s peer (operation_of request) now in
        let h' = inv.admits s peer (operation_of request) now h in
        elim (Bool-cases admitted) [
          | inl t ↦ rw t (dispatch_keeps s' peer request now h')
          | inr f ↦ rw f h'
        ]

    pub calls_keep : (s : Store) (rest : List Call) → P s → P (calls s rest)
    unfolding calls expire
    calls_keep s [] h = h
    calls_keep s (handling peer request now ∷ rest) h =
        calls_keep (handle signed_record_of s peer request now).1 rest
          (handle_keeps s peer request now h)
    calls_keep s (expiring now ∷ rest) h =
        calls_keep (expire s now).1 rest (remove_all_keeps s (expired now s.registrations) h)
