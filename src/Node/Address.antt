-- ===== src/Node/Address.antt =====
-- crates/node/src/rendezvous/store.rs: which namespaces and addresses a registration may have. A
-- namespace is its UTF-8 bytes; an IPv4 address has four bytes and an IPv6 address eight segments.
use envshare.Prelude.{
  ℕ, ◌+◌, ◌/◌, Bool, true, false, not, ◌&&◌, ◌||◌, Option, none, some, List, [], ◌∷◌, leb, ◌==◌,
  if◌then◌else◌, length, take, drop, all, get_or, Bytes, bytes_of, bytes_eq,
}

abbrev namespace_prefix : Bytes
namespace_prefix = bytes_of "envshare-v1-"

abbrev room_hex_bytes : ℕ
room_hex_bytes = 32

-- `is_ascii_hexdigit() && !is_ascii_uppercase()`
abbrev pub is_lower_hex : ℕ → Bool
is_lower_hex byte = (leb b'0' byte && leb byte b'9') || (leb b'a' byte && leb byte b'f')

unfoldable pub valid_namespace : Bytes → Bool
valid_namespace namespace =
    length namespace == length namespace_prefix + room_hex_bytes
    && bytes_eq (take (length namespace_prefix) namespace) namespace_prefix
    && all is_lower_hex (drop (length namespace_prefix) namespace)

-- A component of a Multiaddr; `other` stands for those that `valid_address` does not name.
pub data Protocol : Type 0 where
  ip4 ip6 p2p : List ℕ → Protocol
  tcp quic quic_v1 p2p_circuit other : Protocol

-- The octets of an IPv4 address: private, loopback, link-local, unspecified, multicast, documentation.
pub unusable_v4 : List ℕ → Bool
unusable_v4 address =
    let a = get_or address 0 0 in
    let b = get_or address 1 0 in
    let c = get_or address 2 0 in
    let d = get_or address 3 0 in
    a == 10
    || (a == 172 && b / 16 == 1)
    || (a == 192 && b == 168)
    || a == 127
    || (a == 169 && b == 254)
    || (a == 0 && b == 0 && c == 0 && d == 0)
    || (leb 224 a && leb a 239)
    || (a == 192 && b == 0 && c == 2)
    || (a == 198 && b == 51 && c == 100)
    || (a == 203 && b == 0 && c == 113)

-- The segments of an IPv6 address: unique local, loopback, link-local, unspecified, multicast.
unfoldable unusable_v6 : List ℕ → Bool
unusable_v6 address =
    let first = get_or address 0 0 in
    let last = get_or address 7 0 in
    let zeros = all (λ segment. segment == 0) (take 7 address) in
    first / 512 == 0x7e
    || (zeros && last == 1)
    || first / 64 == 0x3fa
    || (zeros && last == 0)
    || first / 256 == 0xff

unfoldable pub any_protocol : (Protocol → Bool) → List Protocol → Bool
any_protocol test [] = false
any_protocol test (p ∷ address) = test p || any_protocol test address

abbrev is_transport : Protocol → Bool
is_transport tcp = true
is_transport quic = true
is_transport quic_v1 = true
is_transport p2p_circuit = true
is_transport _ = false

pub is_unusable : Protocol → Bool
unfolding unusable_v4 unusable_v6
is_unusable (ip4 address) = unusable_v4 address
is_unusable (ip6 address) = unusable_v6 address
is_unusable _ = false

-- The components behind the first circuit, if there is one.
unfoldable pub behind_circuit : List Protocol → Option (List Protocol)
behind_circuit [] = none
behind_circuit (p2p_circuit ∷ address) = some address
behind_circuit (_ ∷ address) = behind_circuit address

-- `find_map` of the first P2p, with `unwrap_or(true)`.
pub first_peer_is : Bytes → List Protocol → Bool
first_peer_is peer [] = true
first_peer_is peer (p2p route_peer ∷ address) = bytes_eq route_peer peer
first_peer_is peer (_ ∷ address) = first_peer_is peer address

-- The same from the end, with the result for an address that has none.
pub last_peer_or : Bool → Bytes → List Protocol → Bool
last_peer_or found peer [] = found
last_peer_or found peer (p2p route_peer ∷ address) =
    last_peer_or (bytes_eq route_peer peer) peer address
last_peer_or found peer (_ ∷ address) = last_peer_or found peer address

unfoldable pub valid_address : List Protocol → Bytes → Bool → Bool
unfolding any_protocol behind_circuit first_peer_is last_peer_or is_unusable
valid_address address peer allow_private =
    if not (any_protocol is_transport address)
    then false
    else if not allow_private && any_protocol is_unusable address
    then false
    else elim (behind_circuit address) [
      | some route ↦ first_peer_is peer route
      | none ↦ last_peer_or true peer address
    ]
