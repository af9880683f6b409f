-- ===== src/Node/Status.antt =====
-- crates/node/src/telemetry.rs: the health and the counters of a node. Each atomic is a field, and an
-- operation returns the new status; the milliseconds since the start are an argument.
use envshare.Prelude.{ℕ, ◌+◌, ◌-◌, ◌%◌, ◌^◌, Bool, true, false, not, ◌&&◌, leb, ltb, if◌then◌else◌}

abbrev liveness_stale_after : ℕ
liveness_stale_after = 5000

pub record NodeStatus : Type 0 where
  pub live : Bool
  pub ready : Bool
  pub draining : Bool
  pub listeners_expected : ℕ
  pub listeners_ready : ℕ
  pub last_progress_ms : ℕ
  pub connections : ℕ
  pub max_connections : ℕ
  pub reservations : ℕ
  pub max_reservations : ℕ
  pub circuits : ℕ
  pub max_circuits : ℕ
  pub discovery_registrations : ℕ
  pub max_discovery_registrations : ℕ
  pub reservations_accepted : ℕ
  pub reservations_denied : ℕ
  pub circuits_accepted : ℕ
  pub circuits_denied : ℕ
  pub discovery_requests : ℕ
  pub discovery_rejected : ℕ
  pub admission_rejected : ℕ
  pub events_dropped : ℕ

-- `Inner::default`
abbrev pub default : NodeStatus
default = record {
  live = false;
  ready = false;
  draining = false;
  listeners_expected = 0;
  listeners_ready = 0;
  last_progress_ms = 0;
  connections = 0;
  max_connections = 0;
  reservations = 0;
  max_reservations = 0;
  circuits = 0;
  max_circuits = 0;
  discovery_registrations = 0;
  max_discovery_registrations = 0;
  reservations_accepted = 0;
  reservations_denied = 0;
  circuits_accepted = 0;
  circuits_denied = 0;
  discovery_requests = 0;
  discovery_rejected = 0;
  admission_rejected = 0;
  events_dropped = 0;
}

-- `fetch_add(1)`
abbrev increment : ℕ → ℕ
increment counter = (counter + 1) % 2 ^ 64

-- `saturating_sub(1)`
abbrev decrement : ℕ → ℕ
decrement counter = counter - 1

unfoldable pub touch : NodeStatus → ℕ → NodeStatus
touch s elapsed = record s { last_progress_ms = elapsed }

unfoldable pub start : NodeStatus → ℕ → NodeStatus
unfolding touch
start s elapsed = touch (record s { live = true }) elapsed

unfoldable pub expect_listeners : NodeStatus → ℕ → NodeStatus
expect_listeners s listeners = record s { listeners_expected = listeners }

unfoldable pub configure_capacities : NodeStatus → ℕ → ℕ → ℕ → ℕ → NodeStatus
configure_capacities s connections reservations circuits registrations = record s {
  max_connections = connections;
  max_reservations = reservations;
  max_circuits = circuits;
  max_discovery_registrations = registrations;
}

unfoldable pub listeners_ready : NodeStatus → ℕ → NodeStatus
listeners_ready s listeners = record s {
  listeners_ready = listeners;
  ready = ltb 0 s.listeners_expected && leb s.listeners_expected listeners;
}

unfoldable pub begin_drain : NodeStatus → NodeStatus
begin_drain s = record s { draining = true; ready = false }

unfoldable pub stop : NodeStatus → NodeStatus
stop s = record s { ready = false; live = false }

unfoldable is_live_at : NodeStatus → ℕ → Bool
is_live_at s elapsed = s.live && leb (elapsed - s.last_progress_ms) liveness_stale_after

unfoldable pub is_ready : NodeStatus → Bool
is_ready s = s.ready && not s.draining

unfoldable pub connection_opened : NodeStatus → NodeStatus
connection_opened s = record s { connections = increment s.connections }

unfoldable pub connection_closed : NodeStatus → NodeStatus
connection_closed s = record s { connections = decrement s.connections }

unfoldable pub reservation_accepted : NodeStatus → Bool → NodeStatus
reservation_accepted s renewed = record s {
  reservations = if renewed then s.reservations else increment s.reservations;
  reservations_accepted = increment s.reservations_accepted;
}

unfoldable pub reservation_closed : NodeStatus → NodeStatus
reservation_closed s = record s { reservations = decrement s.reservations }

unfoldable pub reservation_denied : NodeStatus → NodeStatus
reservation_denied s = record s { reservations_denied = increment s.reservations_denied }

unfoldable pub circuit_accepted : NodeStatus → NodeStatus
circuit_accepted s = record s {
  circuits = increment s.circuits;
  circuits_accepted = increment s.circuits_accepted;
}

unfoldable pub circuit_closed : NodeStatus → NodeStatus
circuit_closed s = record s { circuits = decrement s.circuits }

unfoldable pub circuit_denied : NodeStatus → NodeStatus
circuit_denied s = record s { circuits_denied = increment s.circuits_denied }

unfoldable pub discovery_request : NodeStatus → NodeStatus
discovery_request s = record s { discovery_requests = increment s.discovery_requests }

unfoldable pub discovery_rejected : NodeStatus → NodeStatus
discovery_rejected s = record s { discovery_rejected = increment s.discovery_rejected }

unfoldable pub set_discovery_registrations : NodeStatus → ℕ → NodeStatus
set_discovery_registrations s registrations = record s { discovery_registrations = registrations }

unfoldable admission_rejected : NodeStatus → NodeStatus
admission_rejected s = record s { admission_rejected = increment s.admission_rejected }

unfoldable pub event_dropped : NodeStatus → NodeStatus
event_dropped s = record s { events_dropped = increment s.events_dropped }
