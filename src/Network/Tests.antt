-- ===== src/Network/Tests.antt =====
-- Runs and instances for crates/network, with addresses of a few bytes for libp2p's.
use mathlib.Core.List.{Perm}
use mathlib.Core.List.Perm
use envshare.Prelude.{
  ◌*◌, ◌≤◌, ◌≡◌, ◌↔◌, refl, true, false, none, some, List, [], ◌∷◌, replicate, length, ◌==◌,
  if◌then◌else◌, All, Bytes, bytes_of, bytes_eq, compare_bytes, ok, arith, ◌+◌,
}
use envshare.Node.Address.{valid_namespace}
use envshare.Node.Maps.{get, insert, contains_key}
use envshare.Node.Store.{Store, Key, same_key}
use envshare.Node.Store
use envshare.Node.Discovery.{expire, store_registration, seconds}
use envshare.Network.Multiaddr.{Protocol, ip4, p2p, dns, tcp, quic_v1, p2p_circuit, Multiaddrs}
use envshare.Network.Discovery.{
  DiscoveredPeer, DiscoveryNode, standard, public_quic, public_tcp, relay, RouteCandidate,
  CandidatePolicy, CandidateSet, new, from_room_id, drain, classify_address, into_ranked,
  insert_peer, push_route, any_protocol, is_refused, is_private, is_quic, is_tcp, behind_circuit,
  first_peer_differs, last_peer_differs, classify_direct, classify_protocols, is_full, is_seen,
  add_address, compare_routes,
}
use envshare.Network.Discovery.Bounds.{insert_all}
use envshare.Network.Discovery.Dialing.{MayDial, into_ranked-MayDial}
use envshare.Network.Discovery.Namespace.{from_room_id-IsRoom}
use envshare.Network.Discovery.Ranking.{IsSorted, into_ranked-IsSorted}
use envshare.Network.Provider.{
  slept, cancelled, rounds, dispatch_registration, dispatch_unregistration, maintain_registrations,
  maintain_registrations_cancelled, renewal_delay,
}
use envshare.Network.Provider.Renewal.{expire-renewal_delay}

-- The first byte of an address says what it is made of.
abbrev protocols : Bytes → List Protocol
protocols [] = []
protocols (code ∷ _) =
    if code == 1
    then ip4 (8 ∷ 8 ∷ 8 ∷ 8 ∷ []) ∷ quic_v1 ∷ []
    else if code == 2
    then ip4 (8 ∷ 8 ∷ 4 ∷ 4 ∷ []) ∷ tcp ∷ []
    else if code == 3
    then ip4 (1 ∷ 1 ∷ 1 ∷ 1 ∷ []) ∷ tcp ∷ p2p (bytes_of "relay") ∷ p2p_circuit ∷ []
    else if code == 4
    then ip4 (127 ∷ 0 ∷ 0 ∷ 1 ∷ []) ∷ tcp ∷ []
    else dns (bytes_of "host") ∷ tcp ∷ []

abbrev addresses : Multiaddrs
addresses = record {
  iter = protocols;
  to_string = λ address. address;
  parse = some;
  pop = λ address. none;
  parse-to_string = λ address. refl;
}

abbrev policy : CandidatePolicy
policy = record { max_peers = 2; max_addresses_per_peer = 3; allow_lan = false; privacy = standard }

abbrev empty : CandidateSet
empty = record { policy = policy; routes = []; seen = [] }

new_run : new policy ≡ ok empty
unfolding new
new_run = refl

abbrev discovered : List DiscoveredPeer
discovered =
    record { peer = bytes_of "b"; addresses = (3 ∷ []) ∷ (3 ∷ []) ∷ (4 ∷ []) ∷ [] }
    ∷ record { peer = bytes_of "a"; addresses = (5 ∷ []) ∷ (2 ∷ []) ∷ (1 ∷ []) ∷ [] }
    ∷ record { peer = bytes_of "c"; addresses = (1 ∷ []) ∷ [] }
    ∷ []

-- The third peer finds no room, and neither the name nor the loopback address is kept.
ranked_run :
    into_ranked addresses (insert_all addresses empty discovered)
    ≡ record { peer = bytes_of "a"; address = 1 ∷ []; kind = public_quic }
      ∷ record { peer = bytes_of "a"; address = 2 ∷ []; kind = public_tcp }
      ∷ record { peer = bytes_of "b"; address = 3 ∷ []; kind = relay }
      ∷ []
unfolding into_ranked insert_all insert_peer contains_key is_full get add_address classify_address
    classify_protocols any_protocol is_refused behind_circuit first_peer_differs is_seen push_route
    insert bytes_eq classify_direct last_peer_differs is_private is_quic is_tcp compare_bytes drain
    compare_routes
ranked_run = refl

into_ranked-MayDial_example :
    All (MayDial addresses policy) (into_ranked addresses (insert_all addresses empty discovered))
    × (length (into_ranked addresses (insert_all addresses empty discovered)) ≤ 2 * 3)
into_ranked-MayDial_example = into_ranked-MayDial addresses policy empty discovered new_run

abbrev first : RouteCandidate
first = record { peer = bytes_of "a"; address = 1 ∷ []; kind = public_quic }

abbrev second : RouteCandidate
second = record { peer = bytes_of "b"; address = 3 ∷ []; kind = relay }

abbrev one_order : CandidateSet
one_order = record empty {
  routes =
      record { key = bytes_of "a"; value = first ∷ [] }
      ∷ record { key = bytes_of "b"; value = second ∷ [] }
      ∷ [];
}

abbrev other_order : CandidateSet
other_order = record empty {
  routes =
      record { key = bytes_of "b"; value = second ∷ [] }
      ∷ record { key = bytes_of "a"; value = first ∷ [] }
      ∷ [];
}

into_ranked-IsSorted_example :
    IsSorted addresses (into_ranked addresses one_order)
    × Perm (into_ranked addresses one_order) (drain one_order.routes)
    × (into_ranked addresses one_order ≡ into_ranked addresses other_order)
into_ranked-IsSorted_example =
    into_ranked-IsSorted addresses one_order other_order (Perm.swap _ _ [])

abbrev room : Bytes
room = replicate 16 0xab

from_room_id-IsRoom_example :
    (valid_namespace (from_room_id room) ≡ true)
    × ((from_room_id room ≡ from_room_id (replicate 16 1)) ↔ (room ≡ replicate 16 1))
from_room_id-IsRoom_example =
    from_room_id-IsRoom room (replicate 16 1) (omega arith) (omega arith) (omega arith)

abbrev nodes : List DiscoveryNode
nodes = record { peer = bytes_of "node"; address = 1 ∷ [] } ∷ []

maintain_registrations_cancelled_example :
    maintain_registrations nodes (from_room_id room) 30 1 (slept ∷ slept ∷ cancelled ∷ slept ∷ [])
    ≡ (
      rounds 3
          (dispatch_registration nodes (from_room_id room) 30 1)
          (dispatch_unregistration nodes (from_room_id room) 1),
      true,
    )
maintain_registrations_cancelled_example =
    maintain_registrations_cancelled nodes (from_room_id room) 30 1 2 (slept ∷ [])

renewal_run : renewal_delay 30 ≡ 20
unfolding renewal_delay
renewal_run = refl

abbrev store : Store
store = Store.new (record {
  min_ttl = 30;
  max_ttl = 300;
  per_peer = 8;
  total = 256;
  per_namespace = 32;
  cookies = 512;
  addresses = 8;
  record_bytes = 16384;
  results = 32;
  register_rate = 12;
  discover_rate = 30;
  rate_peers = 1024;
  allow_private = false;
})

abbrev key : Key
key = record { peer = bytes_of "peer"; namespace = bytes_of "room" }

expire-renewal_delay_example :
    get same_key key
      (expire
        (store_registration store key (bytes_of "record") 30 5)
        (5 + seconds (renewal_delay 30))).1.registrations
    ≡ some (record {
      id = (Store.remove_registration store key).next_registration;
      signed_record = bytes_of "record";
      ttl = 30;
      expires_at = 5 + seconds 30;
    })
expire-renewal_delay_example =
    expire-renewal_delay store key (bytes_of "record") 30 5 (omega arith) (omega arith)
