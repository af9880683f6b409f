-- ===== src/Network/Discovery.antt =====
-- crates/network/src/discovery.rs: namespaces, the validation of candidate routes, and their bounded
-- set. A peer is the bytes of its identity, and a HashSet a list.
pub mod Ranking
mod Allowed
pub mod Bounds
pub mod Namespace
pub mod Dialing
use Prim.Native.Nat.{compare, Ordering}
use envshare.Prelude.{compare_bytes}
use envshare.Prelude.{
  ℕ, ◌+◌, ◌*◌, ◌/◌, ◌%◌, ◌^◌, Bool, true, false, not, ◌&&◌, ◌||◌, Option, none, some, List, [], ◌∷◌,
  ◌++◌, leb, ltb, ◌==◌, if◌then◌else◌, length, take, drop, all, get_or, is_empty, Bytes, bytes_of,
  bytes_eq, ok, err, ◌>>=◌, ◌>>◌, guard, ok_or,
}
use envshare.Node.Maps.{Entry, Map, get, contains_key, insert}
use envshare.Network.Errors.{Network, configuration}
use envshare.Network.Multiaddr.{
  Protocol, ip4, ip6, p2p, dns, dns4, dns6, dnsaddr, tcp, quic, quic_v1, p2p_circuit, memory, unix,
  onion, onion3, Multiaddrs,
}

abbrev hex : Bytes
hex = bytes_of "0123456789abcdef"

pub push_hex : Bytes → Bytes
push_hex [] = []
push_hex (byte ∷ room) = get_or hex (byte / 16) 0 ∷ get_or hex (byte % 16) 0 ∷ push_hex room

-- `DiscoveryNamespace::from_room_id`
pub from_room_id : Bytes → Bytes
unfolding push_hex
from_room_id room_id = bytes_of "envshare-v1-" ++ push_hex room_id

pub record DiscoveredPeer : Type 0 where
  pub peer : Bytes
  pub addresses : List Bytes

pub record DiscoveryNode : Type 0 where
  pub peer : Bytes
  pub address : Bytes

pub data PrivacyMode : Type 0 where
  standard relay_only : PrivacyMode

pub data RouteKind : Type 0 where
  public_quic public_tcp lan relay : RouteKind

pub record RouteCandidate : Type 0 where
  pub peer : Bytes
  pub address : Bytes
  pub kind : RouteKind

pub record CandidatePolicy : Type 0 where
  pub max_peers : ℕ
  pub max_addresses_per_peer : ℕ
  pub allow_lan : Bool
  pub privacy : PrivacyMode

pub record CandidateSet : Type 0 where
  pub policy : CandidatePolicy
  pub routes : Map Bytes (List RouteCandidate)
  pub seen : List DiscoveryNode

-- `CandidateSet::new`
unfoldable pub new : CandidatePolicy → Network CandidateSet
new policy = do
  guard
      (not (
        policy.max_peers == 0
        || ltb 256 policy.max_peers
        || policy.max_addresses_per_peer == 0
        || ltb 16 policy.max_addresses_per_peer))
      configuration
  ok (record { policy = policy; routes = []; seen = [] })

unfoldable pub any_protocol : (Protocol → Bool) → List Protocol → Bool
any_protocol test [] = false
any_protocol test (p ∷ protocols) = test p || any_protocol test protocols

-- The names that are not resolved, and the transports that are not dialed.
unfoldable pub is_refused : Protocol → Bool
is_refused (dns _) = true
is_refused (dns4 _) = true
is_refused (dns6 _) = true
is_refused (dnsaddr _) = true
is_refused memory = true
is_refused unix = true
is_refused onion = true
is_refused onion3 = true
is_refused _ = false

-- Private, loopback, link-local, unspecified and multicast IPv4 addresses.
unfoldable is_private_v4 : List ℕ → Bool
is_private_v4 address =
    let a = get_or address 0 0 in
    let b = get_or address 1 0 in
    a == 10
    || (a == 172 && b / 16 == 1)
    || (a == 192 && b == 168)
    || a == 127
    || (a == 169 && b == 254)
    || all (λ octet. octet == 0) (take 4 address)
    || (leb 224 a && leb a 239)

-- Unique local, loopback, link-local, unspecified and multicast IPv6 addresses, by their segments.
unfoldable is_private_v6 : List ℕ → Bool
is_private_v6 address =
    let first = get_or address 0 0 in
    let last = get_or address 7 0 in
    let zeros = all (λ segment. segment == 0) (take 7 address) in
    first / 512 == 0x7e
    || (zeros && last == 1)
    || first / 64 == 0x3fa
    || (zeros && last == 0)
    || first / 256 == 0xff

unfoldable pub is_private : Protocol → Bool
unfolding is_private_v4 is_private_v6
is_private (ip4 address) = is_private_v4 address
is_private (ip6 address) = is_private_v6 address
is_private _ = false

unfoldable pub is_quic : Protocol → Bool
is_quic quic_v1 = true
is_quic quic = true
is_quic _ = false

unfoldable pub is_tcp : Protocol → Bool
is_tcp tcp = true
is_tcp _ = false

-- What follows the first circuit.
unfoldable pub behind_circuit : List Protocol → Option (List Protocol)
behind_circuit [] = none
behind_circuit (p2p_circuit ∷ protocols) = some protocols
behind_circuit (_ ∷ protocols) = behind_circuit protocols

-- The first identity, if there is one, is another peer's.
unfoldable pub first_peer_differs : Bytes → List Protocol → Bool
first_peer_differs expected [] = false
first_peer_differs expected (p2p peer ∷ protocols) = not (bytes_eq peer expected)
first_peer_differs expected (_ ∷ protocols) = first_peer_differs expected protocols

-- The same of the last identity, with the result for the protocols before.
unfoldable pub last_peer_differs : Bool → Bytes → List Protocol → Bool
last_peer_differs found expected [] = found
last_peer_differs found expected (p2p peer ∷ protocols) =
    last_peer_differs (not (bytes_eq peer expected)) expected protocols
last_peer_differs found expected (_ ∷ protocols) = last_peer_differs found expected protocols

abbrev is_relay_only : PrivacyMode → Bool
is_relay_only relay_only = true
is_relay_only standard = false

-- `classify_address` for an address that is no circuit.
unfoldable pub classify_direct : List Protocol → Bytes → CandidatePolicy → Option RouteKind
classify_direct protocols expected policy =
    if last_peer_differs false expected protocols
    then none
    else if is_relay_only policy.privacy
    then none
    else if any_protocol is_private protocols
    then (if policy.allow_lan then some lan else none)
    else if any_protocol is_quic protocols
    then some public_quic
    else if any_protocol is_tcp protocols
    then some public_tcp
    else none

unfoldable pub classify_protocols : List Protocol → Bytes → CandidatePolicy → Option RouteKind
classify_protocols protocols expected policy =
    if is_empty protocols || any_protocol is_refused protocols
    then none
    else elim (behind_circuit protocols) [
      | some rest ↦ if first_peer_differs expected rest then none else some relay
      | none ↦ classify_direct protocols expected policy
    ]

abbrev same_route : DiscoveryNode → DiscoveryNode → Bool
same_route a b = bytes_eq a.peer b.peer && bytes_eq a.address b.address

unfoldable pub is_seen : DiscoveryNode → List DiscoveryNode → Bool
is_seen route [] = false
is_seen route (other ∷ seen) = same_route other route || is_seen route seen

abbrev or_default : Option (List RouteCandidate) → List RouteCandidate
or_default none = []
or_default (some routes) = routes

-- The routes of a peer are as many as the policy allows.
unfoldable pub is_full : CandidateSet → Bytes → Bool
is_full s peer = elim (get bytes_eq peer s.routes) [
  | some routes ↦ length routes == s.policy.max_addresses_per_peer
  | none ↦ false
]

-- `seen.insert`, then `entry(peer).or_default().push`.
unfoldable pub push_route : CandidateSet → RouteCandidate → CandidateSet
push_route s c = record s {
  seen = record { peer = c.peer; address = c.address } ∷ s.seen;
  routes = insert bytes_eq c.peer (or_default (get bytes_eq c.peer s.routes) ++ c ∷ []) s.routes;
}

abbrev then_with : Ordering → Ordering → Ordering
then_with Ordering.eq next = next
then_with order next = order

-- The derived order of the variants.
abbrev pub rank : RouteKind → ℕ
rank public_quic = 0
rank public_tcp = 1
rank lan = 2
rank relay = 3

-- The routes in the order in which the HashMap gives them up.
unfoldable pub drain : Map Bytes (List RouteCandidate) → List RouteCandidate
drain [] = []
drain (e ∷ routes) = e.value ++ drain routes

module _ (M : Multiaddrs) where
  unfoldable pub classify_address : Bytes → Bytes → CandidatePolicy → Option RouteKind
  classify_address address expected policy = classify_protocols (M.iter address) expected policy

  -- A round of the loop that is not left by `break`.
  unfoldable pub add_address : CandidateSet → Bytes → Bytes → CandidateSet
  add_address s peer address = elim (classify_address address peer s.policy) [
    | none ↦ s
    | some kind ↦
        if is_seen (record { peer = peer; address = address }) s.seen
        then s
        else push_route s (record { peer = peer; address = address; kind = kind })
  ]

  pub insert_addresses : CandidateSet → Bytes → List Bytes → CandidateSet
  insert_addresses s peer [] = s
  insert_addresses s peer (address ∷ addresses) =
      let rest = insert_addresses (add_address s peer address) peer addresses in
      if is_full s peer then s else rest

  -- `CandidateSet::insert`
  unfoldable pub insert_peer : CandidateSet → DiscoveredPeer → CandidateSet
  unfolding insert_addresses
  insert_peer s discovered =
      if not (contains_key bytes_eq discovered.peer s.routes)
        && length s.routes == s.policy.max_peers
      then s
      else insert_addresses s discovered.peer
          (take s.policy.max_addresses_per_peer discovered.addresses)

  unfoldable pub compare_routes : RouteCandidate → RouteCandidate → Ordering
  unfolding compare_bytes
  compare_routes left right = then_with (compare (rank left.kind) (rank right.kind)) (
      then_with (compare_bytes left.peer right.peer)
        (compare_bytes (M.to_string left.address) (M.to_string right.address)))

  -- `sort_by` keeps the order of equal elements.
  pub insert_route : RouteCandidate → List RouteCandidate → List RouteCandidate
  insert_route c [] = c ∷ []
  insert_route c (d ∷ routes) =
      let later = d ∷ insert_route c routes in
      elim (compare_routes c d) [ Ordering.gt ↦ later | _ ↦ c ∷ d ∷ routes ]

  pub sort_routes : List RouteCandidate → List RouteCandidate
  unfolding insert_route
  sort_routes [] = []
  sort_routes (c ∷ routes) = insert_route c (sort_routes routes)

  -- `CandidateSet::into_ranked`
  unfoldable pub into_ranked : CandidateSet → List RouteCandidate
  unfolding sort_routes drain
  into_ranked s = sort_routes (drain s.routes)

  -- `DiscoveryNode::from_str`: the last component is the identity, and a route comes before it.
  unfoldable node_of : Option (Protocol × Bytes) → Network DiscoveryNode
  node_of (some (p2p peer, [])) = err configuration
  node_of (some (p2p peer, byte ∷ rest)) = ok (record { peer = peer; address = byte ∷ rest })
  node_of _ = err configuration

  unfoldable pub from_str : Bytes → Network DiscoveryNode
  unfolding node_of
  from_str input = do address ← ok_or (M.parse input) configuration; node_of (M.pop address)

-- `resolve_discovered_peer` over the resolver of dns.rs, `none` for its errors. `buffered` keeps the
-- order of the addresses.
module _ (resolve : Bytes → Option (List Bytes)) where
  unfoldable resolve_all : List Bytes → List Bytes
  resolve_all [] = []
  resolve_all (address ∷ addresses) = elim (resolve address) [
    | some resolved ↦ resolved ++ resolve_all addresses
    | none ↦ resolve_all addresses
  ]

  unfoldable resolve_discovered_peer : DiscoveredPeer → DiscoveredPeer
  unfolding resolve_all
  resolve_discovered_peer discovered = record {
    peer = discovered.peer;
    addresses = take 16 (resolve_all (take 8 discovered.addresses));
  }
