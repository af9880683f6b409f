-- ===== src/Node/Config.antt =====
-- crates/node/src/config.rs: the limits of a node and their validation. A Duration is a number of
-- nanoseconds, a text its UTF-8 bytes, and the sample ratio the 64 bits of an IEEE 754 double. Serde
-- fills the record from TOML; whether tracing accepts a filter directive is a parameter.
use envshare.Prelude.{
  ℕ, ◌+◌, ◌-◌, ◌*◌, ◌/◌, ◌^◌, Bool, true, false, not, ◌&&◌, ◌||◌, Option, none, some, List, [], ◌∷◌,
  leb, ltb, ◌==◌, if◌then◌else◌, length, drop, all, is_empty, Bytes, bytes_of, has_whitespace,
  has_control, starts_with,
}
use envshare.Node.Address.{Protocol}
use envshare.Node.Admission.{IpAddr, v4, v6}
use envshare.Node.Store.{Limits}

abbrev max_listeners : ℕ
max_listeners = 16

abbrev max_process_memory_bytes : ℕ
max_process_memory_bytes = 64 * (1024 * 1024 * 1024)

abbrev usize_max : ℕ
usize_max = 2 ^ 64 - 1

-- A Duration of whole seconds.
abbrev from_secs : ℕ → ℕ
from_secs seconds = seconds * 1000000000

abbrev from_mins : ℕ → ℕ
from_mins minutes = from_secs (minutes * 60)

abbrev from_hours : ℕ → ℕ
from_hours hours = from_mins (hours * 60)

pub data LogFormat : Type 0 where
  plain_text json : LogFormat

pub record TelemetryConfig : Type 0 where
  pub log_format : LogFormat
  pub log_filter : Bytes
  pub otlp_endpoint : Option Bytes
  pub otlp_sample_ratio : ℕ

pub record NodeConfig : Type 0 where
  pub listen_addresses : List (List Protocol)
  pub max_reservations : ℕ
  pub max_reservations_per_peer : ℕ
  pub reservation_duration : ℕ
  pub max_circuits : ℕ
  pub max_circuits_per_peer : ℕ
  pub max_circuit_duration : ℕ
  pub max_circuit_bytes : ℕ
  pub max_connections : ℕ
  pub max_connections_per_peer : ℕ
  pub max_connections_per_ip : ℕ
  pub connection_attempts_per_ip_per_minute : ℕ
  pub connection_rate_limit_ips : ℕ
  pub max_process_memory : ℕ
  pub event_capacity : ℕ
  pub operations_address : Option IpAddr
  pub shutdown_grace_period : ℕ
  pub discovery_min_ttl_seconds : ℕ
  pub discovery_max_ttl_seconds : ℕ
  pub discovery_registrations_per_peer : ℕ
  pub discovery_registrations_total : ℕ
  pub discovery_registrations_per_namespace : ℕ
  pub discovery_cookies : ℕ
  pub discovery_addresses_per_registration : ℕ
  pub discovery_record_bytes : ℕ
  pub discovery_results : ℕ
  pub discovery_register_requests_per_minute : ℕ
  pub discovery_discover_requests_per_minute : ℕ
  pub discovery_rate_limit_peers : ℕ
  pub discovery_allow_private_addresses : Bool
  pub telemetry : TelemetryConfig

-- `(low..=high).contains(&value)`
abbrev pub within : ℕ → ℕ → ℕ → Bool
within low high value = leb low value && leb value high

unfoldable is_loopback : IpAddr → Bool
is_loopback (v4 address) = address / 2 ^ 24 == 127
is_loopback (v6 address) = address == 1

unfoldable is_none_or {ℓ} : {A : Type ℓ} → Option A → (A → Bool) → Bool
is_none_or none test = true
is_none_or (some a) test = test a

-- The limits of the relay, as far as `max_circuit_bytes`.
unfoldable pub validate_relay : NodeConfig → Bool
validate_relay c =
    not (is_empty c.listen_addresses)
    && leb (length c.listen_addresses) max_listeners
    && all (λ address. not (is_empty address)) c.listen_addresses
    && ltb 0 c.max_reservations
    && leb c.max_reservations 4096
    && ltb 0 c.max_reservations_per_peer
    && leb c.max_reservations_per_peer 64
    && leb c.max_reservations_per_peer c.max_reservations
    && not (c.reservation_duration == 0)
    && leb c.reservation_duration (from_hours 24)
    && ltb 0 c.max_circuits
    && leb c.max_circuits 4096
    && ltb 0 c.max_circuits_per_peer
    && leb c.max_circuits_per_peer 64
    && leb c.max_circuits_per_peer c.max_circuits
    && not (c.max_circuit_duration == 0)
    && leb c.max_circuit_duration (from_hours 1)
    && within 1024 (1024 * 1024 * 1024) c.max_circuit_bytes

-- The limits of the connections and of the process, as far as `shutdown_grace_period`.
unfoldable pub validate_connections : NodeConfig → Bool
unfolding is_none_or is_loopback
validate_connections c =
    ltb 0 c.max_connections
    && leb c.max_connections 8192
    && ltb 0 c.max_connections_per_peer
    && leb c.max_connections_per_peer 128
    && leb c.max_connections_per_peer c.max_connections
    && within 1 256 c.max_connections_per_ip
    && within 1 1200 c.connection_attempts_per_ip_per_minute
    && within 1 16384 c.connection_rate_limit_ips
    && leb (64 * 1024 * 1024) c.max_process_memory
    && leb c.max_process_memory max_process_memory_bytes
    && within 1 8192 c.event_capacity
    && is_none_or c.operations_address is_loopback
    && leb c.shutdown_grace_period (from_mins 5)

-- `checked_mul`, then the limit.
unfoldable pub page_fits : NodeConfig → Bool
page_fits c =
    let bytes = c.discovery_results * c.discovery_record_bytes in
    leb bytes usize_max && leb bytes (900 * 1024)

unfoldable pub validate_discovery : NodeConfig → Bool
unfolding page_fits
validate_discovery c =
    ltb 0 c.discovery_min_ttl_seconds
    && leb c.discovery_min_ttl_seconds c.discovery_max_ttl_seconds
    && leb c.discovery_max_ttl_seconds 86400
    && ltb 0 c.discovery_registrations_per_peer
    && leb c.discovery_registrations_per_peer c.discovery_registrations_total
    && leb c.discovery_registrations_total 4096
    && ltb 0 c.discovery_registrations_per_namespace
    && leb c.discovery_registrations_per_namespace c.discovery_registrations_total
    && ltb 0 c.discovery_cookies
    && leb c.discovery_cookies 8192
    && ltb 0 c.discovery_addresses_per_registration
    && leb c.discovery_addresses_per_registration 16
    && within 512 (16 * 1024) c.discovery_record_bytes
    && ltb 0 c.discovery_results
    && leb c.discovery_results 64
    && leb c.discovery_results c.discovery_registrations_total
    && page_fits c
    && ltb 0 c.discovery_register_requests_per_minute
    && leb c.discovery_register_requests_per_minute 120
    && ltb 0 c.discovery_discover_requests_per_minute
    && leb c.discovery_discover_requests_per_minute 240
    && ltb 0 c.discovery_rate_limit_peers
    && leb c.discovery_rate_limit_peers 4096

-- `rest.split('/').next()`
unfoldable authority_of : Bytes → Bytes
authority_of [] = []
authority_of (c ∷ rest) = if c == b'/' then [] else c ∷ authority_of rest

-- What follows the scheme, which is one of two.
unfoldable strip_scheme : Bytes → Option Bytes
strip_scheme endpoint =
    if starts_with (bytes_of "https://") endpoint
    then some (drop 8 endpoint)
    else if starts_with (bytes_of "http://") endpoint
    then some (drop 7 endpoint)
    else none

unfoldable has_authority : Option Bytes → Bool
unfolding authority_of
has_authority none = false
has_authority (some rest) = not (is_empty (authority_of rest))

unfoldable valid_endpoint : Bytes → Bool
unfolding strip_scheme has_authority
valid_endpoint endpoint =
    is_empty endpoint
    || (leb (length endpoint) 2048
        && has_authority (strip_scheme endpoint)
        && not (has_whitespace endpoint)
        && all (λ c. not (c == b'@' || c == b'?' || c == b'#')) endpoint)

-- `is_finite() && (0.0..=0.1).contains(..)`: the bits of the doubles from 0 to 0.1 are the numbers up
-- to those of 0.1, and -0.0 is equal to 0.0.
unfoldable valid_ratio : ℕ → Bool
valid_ratio bits = leb bits 0x3fb999999999999a || bits == 2 ^ 63

module _ (accepts_filter : Bytes → Bool) where
  unfoldable pub validate_telemetry : TelemetryConfig → Bool
  unfolding is_none_or valid_endpoint valid_ratio
  validate_telemetry t =
      not (is_empty t.log_filter)
      && leb (length t.log_filter) 256
      && not (has_control t.log_filter)
      && accepts_filter t.log_filter
      && is_none_or t.otlp_endpoint valid_endpoint
      && valid_ratio t.otlp_sample_ratio

  unfoldable pub validate : NodeConfig → Bool
  validate c =
      validate_relay c
      && validate_connections c
      && validate_discovery c
      && validate_telemetry c.telemetry

  -- What `load` does with the record that is read: none for the error.
  unfoldable pub checked : NodeConfig → Option NodeConfig
  unfolding validate
  checked c = if validate c then some c else none

-- The configuration that `Store::new` is given.
unfoldable pub limits_of : NodeConfig → Limits
limits_of config = record {
  min_ttl = config.discovery_min_ttl_seconds;
  max_ttl = config.discovery_max_ttl_seconds;
  per_peer = config.discovery_registrations_per_peer;
  total = config.discovery_registrations_total;
  per_namespace = config.discovery_registrations_per_namespace;
  cookies = config.discovery_cookies;
  addresses = config.discovery_addresses_per_registration;
  record_bytes = config.discovery_record_bytes;
  results = config.discovery_results;
  register_rate = config.discovery_register_requests_per_minute;
  discover_rate = config.discovery_discover_requests_per_minute;
  rate_peers = config.discovery_rate_limit_peers;
  allow_private = config.discovery_allow_private_addresses;
}

abbrev default_telemetry : TelemetryConfig
default_telemetry = record {
  log_format = plain_text;
  log_filter = bytes_of "info,libp2p=warn";
  otlp_endpoint = none;
  otlp_sample_ratio = 0x3f847ae147ae147b;
}

-- `NodeConfig::default`, with the two addresses as libp2p parses them.
abbrev pub default : NodeConfig
default = record {
  listen_addresses =
      (Protocol.ip4 (0 ∷ 0 ∷ 0 ∷ 0 ∷ []) ∷ Protocol.tcp ∷ [])
      ∷ (Protocol.ip4 (0 ∷ 0 ∷ 0 ∷ 0 ∷ []) ∷ Protocol.other ∷ Protocol.quic_v1 ∷ [])
      ∷ [];
  max_reservations = 128;
  max_reservations_per_peer = 2;
  reservation_duration = from_hours 1;
  max_circuits = 64;
  max_circuits_per_peer = 4;
  max_circuit_duration = from_mins 2;
  max_circuit_bytes = 2 * 1024 * 1024;
  max_connections = 512;
  max_connections_per_peer = 8;
  max_connections_per_ip = 32;
  connection_attempts_per_ip_per_minute = 120;
  connection_rate_limit_ips = 4096;
  max_process_memory = 1024 * 1024 * 1024;
  event_capacity = 256;
  operations_address = some (v4 (127 * 2 ^ 24 + 1));
  shutdown_grace_period = from_secs 30;
  discovery_min_ttl_seconds = 30;
  discovery_max_ttl_seconds = 300;
  discovery_registrations_per_peer = 8;
  discovery_registrations_total = 256;
  discovery_registrations_per_namespace = 32;
  discovery_cookies = 512;
  discovery_addresses_per_registration = 8;
  discovery_record_bytes = 16 * 1024;
  discovery_results = 32;
  discovery_register_requests_per_minute = 12;
  discovery_discover_requests_per_minute = 30;
  discovery_rate_limit_peers = 1024;
  discovery_allow_private_addresses = false;
  telemetry = default_telemetry;
}
