-- ===== src/Node/Tests.antt =====
-- Runs and instances for crates/node.
use mathlib.Core.List.{Perm}
use envshare.Prelude.{
  ℕ, ◌≡◌, length, refl, true, false, Option, none, some, List, [], ◌∷◌, ◌++◌, replicate, Bytes,
  bytes_of, bytes_eq, err, min,
}
use envshare.Node.Maps.{insert, get, contains_key}
use envshare.Node.Address.{
  Protocol, valid_namespace, valid_address, unusable_v4, any_protocol, is_unusable, behind_circuit,
  first_peer_is, last_peer_or,
}
use envshare.Node.Address
use envshare.Node.Admission.{
  Behaviour, AdmissionDenied, denied, new, admit, connection_established, connection_closed,
  same_ip, source_ip,
}
use envshare.Node.Admission
use envshare.Node.Admission.Holding.{holder}
use envshare.Node.Admission.Counting.{used_by, charged}
use envshare.Node.Admission.Steps.{
  IsBounded, held, Step, pending_inbound, swarm_event, steps, steps-IsBounded,
}
use envshare.Node.Store.{Limits, Store, Request, register_request, discover_request}
use envshare.Node.Store
use envshare.Node.Discovery.{PeerRecord, Candidate, page}
use envshare.Node.Discovery.Bounds
use envshare.Node.Discovery.Pages.{unseen, asked_for, IsSorted, page-IsSorted}
use envshare.Node.Discovery.Calls.{Call, handling, expiring, calls}
use envshare.Node.Discovery.Requests.{calls-IsBounded}

abbrev address : List Admission.Protocol
address = Admission.ip4 3221225985 ∷ Admission.other ∷ []

abbrev visits : List Step
visits =
    pending_inbound 1 address 0
    ∷ swarm_event (connection_established 1)
    ∷ pending_inbound 2 address 1
    ∷ pending_inbound 3 address 2
    ∷ swarm_event (connection_closed 1)
    ∷ []

-- The third connection of an address is refused when two are allowed.
third :
    (admit
      (steps (new 2 5 2) (pending_inbound 1 address 0 ∷ pending_inbound 2 address 1 ∷ []))
      3
      address
      2).0
    ≡ err denied
unfolding admit steps new contains_key get insert same_ip
third = refl

steps-IsBounded_example :
    IsBounded 2 2 2 (steps (new 2 2 2) visits)
    × ((id : ℕ) → holder (steps (new 2 2 2) visits) id ≡ held id none (new 2 2 2) visits)
    × ((id : ℕ) (from : List Admission.Protocol) (now : ℕ)
        → used_by (admit (steps (new 2 2 2) visits) id from now).1 (source_ip from) now
          ≡ charged
              (admit (steps (new 2 2 2) visits) id from now).0
              (used_by (steps (new 2 2 2) visits) (source_ip from) now))
steps-IsBounded_example = steps-IsBounded 2 2 2 visits

abbrev config : Limits
config = record {
  min_ttl = 1;
  max_ttl = 60;
  per_peer = 1;
  total = 2;
  per_namespace = 1;
  cookies = 2;
  addresses = 1;
  record_bytes = 64;
  results = 4;
  register_rate = 10;
  discover_rate = 10;
  rate_peers = 2;
  allow_private = false;
}

abbrev peer : Bytes
peer = bytes_of "peer"

abbrev namespace : Bytes
namespace = bytes_of "envshare-v1-" ++ replicate 32 b'a'

namespace_valid : valid_namespace namespace ≡ true
unfolding valid_namespace bytes_eq
namespace_valid = refl

abbrev public_address : List Protocol
public_address = Address.ip4 (203 ∷ 0 ∷ 114 ∷ 20 ∷ []) ∷ Address.tcp ∷ []

address_valid : valid_address public_address peer false ≡ true
unfolding valid_address
address_valid = refl

loopback_refused :
    valid_address (Address.ip4 (127 ∷ 0 ∷ 0 ∷ 1 ∷ []) ∷ Address.tcp ∷ []) peer false ≡ false
unfolding valid_address
loopback_refused = refl

abbrev signed_record_of : Bytes → Option PeerRecord
signed_record_of bytes = some (record { peer_id = peer; addresses = public_address ∷ [] })

abbrev requests : List (Call signed_record_of)
requests =
    handling peer (register_request namespace (bytes_of "record") none) 0
    ∷ handling peer (discover_request (some namespace) none none) 1
    ∷ expiring 61000000000
    ∷ []

calls-IsBounded_example :
    Bounds.IsBounded config (calls signed_record_of (Store.new config) requests)
calls-IsBounded_example = calls-IsBounded signed_record_of config requests

-- A store with one registration of the namespace.
abbrev stocked : Store
stocked =
    calls signed_record_of (Store.new config)
      (handling peer (register_request namespace (bytes_of "record") none) 0 ∷ [])

page-IsSorted_example :
    (rest : List Candidate) × Perm
      (page stocked namespace [] none ++ rest)
      (unseen namespace [] stocked.registrations)
    × IsSorted (page stocked namespace [] none ++ rest)
    × (length (page stocked namespace [] none)
        ≡ min
            (asked_for none stocked.config.results)
            (length (unseen namespace [] stocked.registrations)))
page-IsSorted_example = page-IsSorted stocked namespace [] none
