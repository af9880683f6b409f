-- ===== src/Node/Discovery.antt =====
-- crates/node/src/rendezvous/store.rs: the requests that the store handles, and expiry.
pub mod Counts
pub mod Bounds
pub mod Calls
pub mod Requests
pub mod Pages
pub mod Records
use envshare.Prelude.{
  ℕ, zero, suc, ◌+◌, ◌-◌, ◌*◌, ◌^◌, min, Bool, true, false, not, ◌&&◌, ◌||◌, Option, none, some,
  List, [], ◌∷◌, ◌++◌, map, leb, ltb, ◌==◌, if◌then◌else◌, length, take, all, is_empty, Bytes,
  bytes_eq, to_be_bytes, Result, ok, err, ◌>>=◌, ◌>>◌, guard, ok_or,
}
use envshare.Node.Maps.{Entry, Map, get, contains_key, retain, remove, insert}
use envshare.Node.Address.{Protocol, valid_namespace, valid_address}
use envshare.Node.Store.{
  Limits, Registration, CookieState, Key, Store, Request, register_request, unregister_request,
  discover_request, Status, invalid_namespace, invalid_signed_peer_record, invalid_ttl,
  invalid_cookie, not_authorized, unavailable, WireRegistration, DiscoveryPage, Response,
  registered_response, discovered_response, Event, registered, unregistered, served, Handled,
  Operation, register_operation, unregister_operation, discover_operation, same_key, rejected,
  response_for_rate_limited, next_id, admit, remove_registration,
}

-- The record in a signed envelope.
pub record PeerRecord : Type 0 where
  pub peer_id : Bytes
  pub addresses : List (List Protocol)

-- The entries of a peer, and those of a namespace.
unfoldable pub count_peer : Bytes → Map Key Registration → ℕ
count_peer peer [] = 0
count_peer peer (e ∷ m) =
    let rest = count_peer peer m in if bytes_eq e.key.peer peer then suc rest else rest

unfoldable pub count_namespace : Bytes → Map Key Registration → ℕ
count_namespace namespace [] = 0
count_namespace namespace (e ∷ m) =
    let rest = count_namespace namespace m in
    if bytes_eq e.key.namespace namespace then suc rest else rest

-- There is no room for a new registration of the key.
unfoldable pub is_full : Store → Key → Bool
is_full s key =
    leb s.config.total (length s.registrations)
    || leb s.config.per_peer (count_peer key.peer s.registrations)
    || leb s.config.per_namespace (count_namespace key.namespace s.registrations)

abbrev or_default : Option ℕ → ℕ → ℕ
or_default none d = d
or_default (some n) d = n

-- A time to live in seconds, as nanoseconds.
abbrev pub seconds : ℕ → ℕ
seconds ttl = ttl * 1000000000

unfoldable pub store_registration : Store → Key → Bytes → ℕ → ℕ → Store
unfolding remove_registration
store_registration s key signed_record ttl now =
    let s = remove_registration s key in
    record s {
      next_registration = next_id s.next_registration;
      registrations =
          insert same_key key
            (record {
              id = s.next_registration;
              signed_record = signed_record;
              ttl = ttl;
              expires_at = now + seconds ttl;
            })
            s.registrations;
    }

unfoldable pub unregister : Store → Bytes → Bytes → Handled × Store
unregister s peer namespace = if not (valid_namespace namespace) then (rejected peer none, s) else (
  record { response = none; event = unregistered peer },
  remove_registration s (record { peer = peer; namespace = namespace }),
)

-- `while self.cookies.len() >= self.config.cookies`
unfoldable evict : ℕ → Map Bytes CookieState → List Bytes → Map Bytes CookieState × List Bytes
evict limit cookies [] = (cookies, [])
evict limit cookies (oldest ∷ order) =
    let rest = evict limit (remove bytes_eq oldest cookies) order in
    if leb limit (length cookies) then rest else (cookies, oldest ∷ order)

unfoldable pub insert_cookie : Store → Bytes → List ℕ → Bytes × Store
unfolding evict
insert_cookie s namespace seen =
    let (cookies, order) = evict s.config.cookies s.cookies s.cookie_order in
    let cookie = to_be_bytes 8 s.next_cookie ++ namespace in
    (
      cookie,
      record s {
        next_cookie = next_id s.next_cookie;
        cookies = insert bytes_eq cookie (record { namespace = namespace; seen = seen }) cookies;
        cookie_order = order ++ cookie ∷ [];
      },
    )

pub has_seen : ℕ → List ℕ → Bool
has_seen id [] = false
has_seen id (seen ∷ rest) = seen == id || has_seen id rest

-- A registration that the client has not seen, with its id.
pub record Candidate : Type 0 where
  pub id : ℕ
  pub wire : WireRegistration

pub candidates : Bytes → List ℕ → Map Key Registration → List Candidate
unfolding has_seen
candidates namespace seen [] = []
candidates namespace seen (e ∷ m) =
    let rest = candidates namespace seen m in
    let candidate : Candidate = record {
      id = e.value.id;
      wire = record {
        namespace = e.key.namespace;
        signed_record = e.value.signed_record;
        ttl = e.value.ttl;
      };
    } in
    if bytes_eq e.key.namespace namespace && not (has_seen e.value.id seen)
    then candidate ∷ rest
    else rest

-- `sort_by_key(|(id, _)| *id)`
pub insert_sorted : Candidate → List Candidate → List Candidate
insert_sorted c [] = c ∷ []
insert_sorted c (d ∷ rest) =
    let later = insert_sorted c rest in if leb c.id d.id then c ∷ d ∷ rest else d ∷ later

pub sort_by_id : List Candidate → List Candidate
unfolding insert_sorted
sort_by_id [] = []
sort_by_id (c ∷ rest) = insert_sorted c (sort_by_id rest)

unfoldable seen_before : Store → Bytes → Option Bytes → Result Status (List ℕ)
seen_before s namespace none = ok []
seen_before s namespace (some cookie) = do
  state ← ok_or (get bytes_eq cookie s.cookies) invalid_cookie
  guard (bytes_eq state.namespace namespace) invalid_cookie
  ok state.seen

-- The filter of the namespace.
unfoldable pub requested_namespace : Option Bytes → Result Status Bytes
requested_namespace none = err invalid_namespace
requested_namespace (some namespace) = do
  guard (valid_namespace namespace) invalid_namespace
  ok namespace

-- The page and what is seen after it.
pub page : Store → Bytes → List ℕ → Option ℕ → List Candidate
unfolding candidates sort_by_id
page s namespace seen limit =
    let requested = min (or_default limit s.config.results) s.config.results in
    take requested (sort_by_id (candidates namespace seen s.registrations))

unfoldable pub serve : Store → Bytes → Bytes → List ℕ → Option ℕ → Handled × Store
unfolding page insert_cookie
serve s peer namespace seen limit =
    let registrations = page s namespace seen limit in
    let (cookie, s) = insert_cookie s namespace (seen ++ map (λ c. c.id) registrations) in
    (
      record {
        response = some (
            discovered_response
              (ok (record { registrations = map (λ c. c.wire) registrations; cookie = cookie })));
        event = served peer (length registrations);
      },
      s,
    )

-- The namespace and what the cookie has seen.
unfoldable pub asked : Store → Option Bytes → Option Bytes → Result Status (Bytes × List ℕ)
unfolding requested_namespace seen_before
asked s namespace cookie = do
  namespace ← requested_namespace namespace
  seen ← seen_before s namespace cookie
  ok (namespace, seen)

unfoldable pub discover : Store → Bytes → Option Bytes → Option Bytes → Option ℕ → Handled × Store
unfolding asked serve
discover s peer namespace cookie limit = elim (asked s namespace cookie) [
  | ok found ↦ serve s peer found.0 found.1 limit
  | err status ↦ (rejected peer (some (discovered_response (err status))), s)
]

-- The peers whose registrations are over, which are removed one after the other.
unfoldable pub expired : ℕ → Map Key Registration → List Key
expired now [] = []
expired now (e ∷ m) =
    let rest = expired now m in if leb e.value.expires_at now then e.key ∷ rest else rest

unfoldable pub remove_all : Store → List Key → List Bytes × Store
remove_all s [] = ([], s)
remove_all s (key ∷ keys) =
    let (peers, s') = remove_all (remove_registration s key) keys in
    if contains_key same_key key s.registrations then (key.peer ∷ peers, s') else (peers, s')

unfoldable pub expire : Store → ℕ → List Bytes × Store
unfolding expired remove_all
expire s now = remove_all s (expired now s.registrations)

abbrev pub operation_of : Request → Operation
operation_of (register_request _ _ _) = register_operation
operation_of (unregister_request _) = unregister_operation
operation_of (discover_request _ _ _) = discover_operation

module _ (signed_record_of : Bytes → Option PeerRecord) where
  pub validate_record : Limits → Bytes → Bytes → Result Status (Unit {0})
  validate_record config peer bytes = do
    guard (leb (length bytes) config.record_bytes) invalid_signed_peer_record
    peer_record ← ok_or (signed_record_of bytes) invalid_signed_peer_record
    guard (bytes_eq peer_record.peer_id peer) not_authorized
    guard
        (not (is_empty peer_record.addresses)
          && leb (length peer_record.addresses) config.addresses
          && all (λ address. valid_address address peer config.allow_private) peer_record.addresses)
        invalid_signed_peer_record

  -- The checks of `register`; they give the time to live.
  pub check_registration : Store → Bytes → Bytes → Bytes → Option ℕ → Result Status ℕ
  unfolding validate_record is_full
  check_registration s peer namespace signed_record requested = do
    guard (valid_namespace namespace) invalid_namespace
    let ttl = or_default requested s.config.max_ttl
    guard (leb s.config.min_ttl ttl && leb ttl s.config.max_ttl) invalid_ttl
    validate_record s.config peer signed_record
    let key : Key = record { peer = peer; namespace = namespace }
    guard (contains_key same_key key s.registrations || not (is_full s key)) unavailable
    ok ttl

  unfoldable pub register : Store → Bytes → Bytes → Bytes → Option ℕ → ℕ → Handled × Store
  unfolding check_registration store_registration
  register s peer namespace signed_record requested now =
      elim (check_registration s peer namespace signed_record requested) [
        | err status ↦ (rejected peer (some (registered_response (err status))), s)
        | ok ttl ↦ (
          record { response = some (registered_response (ok ttl)); event = registered peer },
          store_registration s (record { peer = peer; namespace = namespace }) signed_record ttl
              now,
        )
      ]

  unfoldable pub dispatch : Store → Bytes → Request → ℕ → Handled × Store
  unfolding register unregister discover
  dispatch s peer (register_request namespace signed_record ttl) now =
      register s peer namespace signed_record ttl now
  dispatch s peer (unregister_request namespace) now = unregister s peer namespace
  dispatch s peer (discover_request namespace cookie limit) now =
      discover s peer namespace cookie limit

  unfoldable pub handle : Store → Bytes → Request → ℕ → Handled × Store
  unfolding dispatch
  handle s peer request now =
      let (admitted, s) = admit s peer (operation_of request) now in
      if admitted
      then dispatch s peer request now
      else (rejected peer (response_for_rate_limited (operation_of request)), s)
