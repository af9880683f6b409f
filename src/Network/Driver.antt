-- ===== src/Network/Driver.antt =====
-- crates/network/src/driver.rs with config.rs: the owner of the swarm, as a function of the turns of its
-- `select!`. What it calls is written down in `effects`, the latest first; a `oneshot` sender, a response
-- channel and libp2p's ids are numbers.
pub mod Turns
pub mod Accounting
mod Commands
pub mod Answering
mod Tables
pub mod Exchange
mod Tests
use envshare.Prelude.{
  ℕ, ◌+◌, ◌*◌, ◌%◌, ◌^◌, max, Bool, true, false, not, ◌&&◌, ◌||◌, Option, none, some, List, [], ◌∷◌,
  ◌++◌, map, take, length, leb, ltb, ◌==◌, if◌then◌else◌, Bytes, ok, err, guard, ◌>>=◌, ◌>>◌,
}
use envshare.Protocol.Limits.{protocol_version}
use envshare.Protocol.Errors.{temporarily_unavailable}
use envshare.Protocol.Message.{TransferRequest, TransferResponse, error}
use envshare.Node.Maps.{Map, Entry, get, insert, remove, retain}
use envshare.Network.Errors.{Network, configuration}
use envshare.Network.Discovery.{DiscoveredPeer, PrivacyMode, standard, relay_only}

pub record NetworkConfig : Type 0 where
  pub command_capacity : ℕ
  pub event_capacity : ℕ
  pub request_timeout : ℕ
  pub max_concurrent_streams : ℕ
  pub max_established_connections : ℕ
  pub max_connections_per_peer : ℕ
  pub max_process_memory_bytes : ℕ
  pub max_discovery_results : ℕ
  pub enable_mdns : Bool
  pub privacy_mode : PrivacyMode

-- Durations are in seconds here.
abbrev pub default : NetworkConfig
default = record {
  command_capacity = 32;
  event_capacity = 32;
  request_timeout = 15;
  max_concurrent_streams = 16;
  max_established_connections = 64;
  max_connections_per_peer = 4;
  max_process_memory_bytes = 512 * 1024 * 1024;
  max_discovery_results = 32;
  enable_mdns = false;
  privacy_mode = standard;
}

unfoldable pub validate : NetworkConfig → Bool
validate c =
    ltb 0 c.command_capacity
    && ltb 0 c.event_capacity
    && not (c.request_timeout == 0)
    && ltb 0 c.max_concurrent_streams
    && ltb 0 c.max_established_connections
    && ltb 0 c.max_connections_per_peer
    && leb c.max_connections_per_peer c.max_established_connections
    && leb (16 * 1024 * 1024) c.max_process_memory_bytes
    && ltb 0 c.max_discovery_results
    && leb c.max_discovery_results 256

pub data NetworkEvent : Type 0 where
  listening : (address : Bytes) → NetworkEvent
  inbound_request : (peer : Bytes) (request_id : ℕ) (request : TransferRequest) → NetworkEvent
  connected disconnected : (peer : Bytes) → NetworkEvent
  relay_reservation : (relay_peer : Bytes) (renewal : Bool) → NetworkEvent
  outbound_relay_circuit : (relay_peer : Bytes) → NetworkEvent
  inbound_relay_circuit : (source_peer : Bytes) → NetworkEvent
  discovery_registered : (node : Bytes) (ttl_seconds : ℕ) → NetworkEvent
  discovery_results : (node : Bytes) (peers : List DiscoveredPeer) → NetworkEvent
  discovery_failed : (node : Bytes) → NetworkEvent
  discovery_expired : (peer : Bytes) → NetworkEvent
  lan_discovered : (peers : List DiscoveredPeer) → NetworkEvent
  lan_expired : (peer : Bytes) → NetworkEvent

pub data DiscoveryCommand : Type 0 where
  add_address remove_address : (address : Bytes) (result : ℕ) → DiscoveryCommand
  register :
      (node : Bytes) (node_addresses : List Bytes) (namespace : Bytes) (ttl_seconds result : ℕ)
      → DiscoveryCommand
  discover :
      (node : Bytes) (node_addresses : List Bytes) (namespace : Bytes) (result : ℕ)
      → DiscoveryCommand
  unregister : (node namespace : Bytes) (result : ℕ) → DiscoveryCommand

pub data Command : Type 0 where
  listen_on : (addresses : List Bytes) (result : ℕ) → Command
  dial_peer : (peer : Bytes) (addresses : List Bytes) (result : ℕ) → Command
  request_of :
      (peer : Bytes) (addresses : List Bytes) (request : TransferRequest) (result : ℕ) → Command
  respond : (request_id : ℕ) (response : TransferResponse) (result : ℕ) → Command
  discovery : DiscoveryCommand → Command

-- The calls of the swarm and of the senders of results.
pub data Effect : Type 0 where
  listened external_added external_removed advertised : (address : Bytes) → Effect
  dialed : (peer : Bytes) (addresses : List Bytes) → Effect
  peer_address_added : (peer address : Bytes) → Effect
  requested : (request_id : ℕ) (peer : Bytes) (request : TransferRequest) → Effect
  responded : (channel : ℕ) (response : TransferResponse) → Effect
  registered : (node namespace : Bytes) (ttl_seconds : ℕ) → Effect
  discovered : (node namespace : Bytes) (limit : ℕ) → Effect
  unregistered : (node namespace : Bytes) → Effect
  replied : (result : ℕ) (outcome : Network (Unit {0})) → Effect
  answered : (result : ℕ) (outcome : Network TransferResponse) → Effect

-- What the swarm answers to the calls of a turn; `request_id` is the id that a request is given.
pub record Answers : Type 0 where
  pub listens : Bytes → Bool
  pub accepts_namespace : Bytes → Bool
  pub dials : Bool
  pub sends : Bool
  pub registers : Bool
  pub request_id : ℕ

pub record NetworkDriver : Type 0 where
  pub outbound : Map ℕ ℕ
  pub inbound : Map ℕ ℕ
  pub inbound_protocol_ids : Map ℕ ℕ
  pub inbound_confirmations : Map ℕ ℕ
  pub next_inbound_id : ℕ
  pub max_discovery_results : ℕ
  pub lan : Bool
  pub events : List NetworkEvent
  pub event_capacity : ℕ
  pub effects : List Effect

abbrev pub same_id : ℕ → ℕ → Bool
same_id a b = a == b

abbrev hides : PrivacyMode → Bool
hides standard = false
hides relay_only = true

-- `builds` and `lan_starts` say whether libp2p could set up the swarm and the multicast socket.
unfoldable pub new : NetworkConfig → Bool → Bool → Network NetworkDriver
unfolding validate
new config builds lan_starts = do
  guard (validate config) configuration
  guard builds configuration
  let lan = config.enable_mdns && not (hides config.privacy_mode)
  guard (not lan || lan_starts) configuration
  ok (record {
    outbound = [];
    inbound = [];
    inbound_protocol_ids = [];
    inbound_confirmations = [];
    next_inbound_id = 1;
    max_discovery_results = config.max_discovery_results;
    lan = lan;
    events = [];
    event_capacity = config.event_capacity;
    effects = [];
  })

pub call : NetworkDriver → Effect → NetworkDriver
call s effect = record s { effects = effect ∷ s.effects }

pub has_room : NetworkDriver → Bool
has_room s = ltb (length s.events) s.event_capacity

-- `try_send` on the queue of events, whose failure is ignored.
pub try_send : NetworkDriver → NetworkEvent → NetworkDriver
unfolding has_room
try_send s event = if has_room s then record s { events = s.events ++ event ∷ [] } else s

pub add_peer_addresses : NetworkDriver → Bytes → List Bytes → NetworkDriver
unfolding call
add_peer_addresses s peer [] = s
add_peer_addresses s peer (address ∷ addresses) =
    add_peer_addresses (call s (peer_address_added peer address)) peer addresses

-- `listen_on` for each address.
pub listen_all : NetworkDriver → List Bytes → NetworkDriver
unfolding call
listen_all s [] = s
listen_all s (address ∷ addresses) = listen_all (call s (listened address)) addresses

-- How many of the addresses the swarm listens on.
pub count_listening : (Bytes → Bool) → List Bytes → ℕ
count_listening listens [] = 0
count_listening listens (address ∷ addresses) =
    let rest = count_listening listens addresses in if listens address then 1 + rest else rest

abbrev pub outcome_of : Bool → Network (Unit {0}) → Network (Unit {0})
outcome_of true failure = ok tt
outcome_of false failure = failure

-- The protocol id that stands for an application id.
pub protocol_of : ℕ → Map ℕ ℕ → Option ℕ
protocol_of request_id [] = none
protocol_of request_id (e ∷ m) =
    if e.value == request_id then some e.key else protocol_of request_id m
