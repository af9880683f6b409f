-- ===== src/Node/Store.antt =====
-- crates/node/src/rendezvous/store.rs: the registrations, cookies and rate entries of the node. An
-- Instant is a number of nanoseconds, a HashSet a list, and the decoding of a signed peer record by
-- libp2p a parameter, `none` for its errors.
use envshare.Prelude.{
  ℕ, ◌+◌, ◌-◌, ◌*◌, ◌%◌, ◌^◌, max, Bool, true, false, not, ◌&&◌, Option, none, some, List, [], ◌∷◌,
  leb, ltb, ◌==◌, if◌then◌else◌, length, is_empty, Bytes, bytes_eq, Result, err,
}
use envshare.Node.Maps.{Map, get, contains_key, retain, remove, insert}

abbrev pub window : ℕ
window = 60 * 1000000000

pub record Limits : Type 0 where
  pub min_ttl : ℕ
  pub max_ttl : ℕ
  pub per_peer : ℕ
  pub total : ℕ
  pub per_namespace : ℕ
  pub cookies : ℕ
  pub addresses : ℕ
  pub record_bytes : ℕ
  pub results : ℕ
  pub register_rate : ℕ
  pub discover_rate : ℕ
  pub rate_peers : ℕ
  pub allow_private : Bool

pub record Registration : Type 0 where
  pub id : ℕ
  pub signed_record : Bytes
  pub ttl : ℕ
  pub expires_at : ℕ

pub record CookieState : Type 0 where
  pub namespace : Bytes
  pub seen : List ℕ

pub record RateState : Type 0 where
  pub window_started : ℕ
  pub registrations : ℕ
  pub discoveries : ℕ

-- `(PeerId, String)`
pub record Key : Type 0 where
  pub peer : Bytes
  pub namespace : Bytes

pub record Store : Type 0 where
  pub config : Limits
  pub registrations : Map Key Registration
  pub cookies : Map Bytes CookieState
  pub cookie_order : List Bytes
  pub rates : Map Bytes RateState
  pub next_registration : ℕ
  pub next_cookie : ℕ

pub data Request : Type 0 where
  register_request : (namespace signed_record : Bytes) (ttl : Option ℕ) → Request
  unregister_request : (namespace : Bytes) → Request
  discover_request : (namespace cookie : Option Bytes) (limit : Option ℕ) → Request

pub data Status : Type 0 where
  invalid_namespace invalid_signed_peer_record invalid_ttl : Status
  invalid_cookie not_authorized unavailable : Status

pub record WireRegistration : Type 0 where
  pub namespace : Bytes
  pub signed_record : Bytes
  pub ttl : ℕ

pub record DiscoveryPage : Type 0 where
  pub registrations : List WireRegistration
  pub cookie : Bytes

pub data Response : Type 0 where
  registered_response : Result Status ℕ → Response
  discovered_response : Result Status DiscoveryPage → Response

pub data Event : Type 0 where
  registered unregistered rejected_event : (peer : Bytes) → Event
  served : (peer : Bytes) (count : ℕ) → Event

pub record Handled : Type 0 where
  pub response : Option Response
  pub event : Event

pub data Operation : Type 0 where
  register_operation unregister_operation discover_operation : Operation

unfoldable pub same_key : Key → Key → Bool
same_key a b = bytes_eq a.peer b.peer && bytes_eq a.namespace b.namespace

-- `Store::new`
unfoldable pub new : Limits → Store
new config = record {
  config = config;
  registrations = [];
  cookies = [];
  cookie_order = [];
  rates = [];
  next_registration = 1;
  next_cookie = 1;
}

unfoldable pub rejected : Bytes → Option Response → Handled
rejected peer response = record { response = response; event = rejected_event peer }

unfoldable pub response_for_rate_limited : Operation → Option Response
response_for_rate_limited register_operation = some (registered_response (err unavailable))
response_for_rate_limited unregister_operation = none
response_for_rate_limited discover_operation = some (discovered_response (err unavailable))

-- `wrapping_add(1).max(1)` on a u64
abbrev pub next_id : ℕ → ℕ
next_id id = max ((id + 1) % 2 ^ 64) 1

-- `now.saturating_duration_since(state.window_started) < WINDOW`
pub is_current : ℕ → RateState → Bool
is_current now state = ltb (now - state.window_started) window

abbrev pub rate_or : Option RateState → RateState → RateState
rate_or none fresh = fresh
rate_or (some state) fresh = state

-- The `match operation`: the state after the request, if it is admitted.
unfoldable pub charge : Limits → Operation → RateState → Option RateState
charge config discover_operation state =
    if ltb state.discoveries config.discover_rate
    then some (record state { discoveries = state.discoveries + 1 })
    else none
charge config _ state =
    if ltb state.registrations config.register_rate
    then some (record state { registrations = state.registrations + 1 })
    else none

-- `admit` after the old entries are dropped.
unfoldable pub admit_current : Store → Bytes → Operation → ℕ → Bool × Store
unfolding charge
admit_current s peer operation now =
    if not (contains_key bytes_eq peer s.rates) && leb s.config.rate_peers (length s.rates)
    then (false, s)
    else let fresh : RateState = record {
      window_started = now;
      registrations = 0;
      discoveries = 0;
    } in
      let state = rate_or (get bytes_eq peer s.rates) fresh in
      elim (charge s.config operation state) [
        | some charged ↦ (true, record s { rates = insert bytes_eq peer charged s.rates })
        | none ↦ (false, record s { rates = insert bytes_eq peer state s.rates })
      ]

unfoldable pub admit : Store → Bytes → Operation → ℕ → Bool × Store
unfolding admit_current is_current
admit s peer operation now =
    admit_current (record s { rates = retain (λ e. is_current now e.value) s.rates }) peer operation
      now

unfoldable pub forget : ℕ → List ℕ → List ℕ
forget id [] = []
forget id (seen ∷ rest) =
    let others = forget id rest in if seen == id then others else seen ∷ others

-- The closure of `retain`: the registration is forgotten, and a cookie that has seen none is dropped.
unfoldable forget_in : ℕ → Map Bytes CookieState → Map Bytes CookieState
unfolding forget
forget_in id [] = []
forget_in id (e ∷ cookies) =
    let seen = forget id e.value.seen in
    let rest = forget_in id cookies in
    if is_empty seen
    then rest
    else record { key = e.key; value = record (e.value) { seen = seen } } ∷ rest

unfoldable keep_known : Map Bytes CookieState → List Bytes → List Bytes
keep_known cookies [] = []
keep_known cookies (cookie ∷ order) =
    let rest = keep_known cookies order in
    if contains_key bytes_eq cookie cookies then cookie ∷ rest else rest

unfoldable pub remove_from_cookies : Store → ℕ → Store
unfolding forget_in keep_known
remove_from_cookies s registration_id =
    let cookies = forget_in registration_id s.cookies in
    record s { cookies = cookies; cookie_order = keep_known cookies s.cookie_order }

-- `if let Some(previous) = registrations.remove(&key) { remove_from_cookies(previous.id) }`
unfoldable pub remove_registration : Store → Key → Store
unfolding remove_from_cookies
remove_registration s key = elim (get same_key key s.registrations) [
  | none ↦ s
  | some previous ↦
      remove_from_cookies (record s { registrations = remove same_key key s.registrations })
        previous.id
]
