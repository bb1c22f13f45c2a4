-- ===== src/Metrics.antt =====
-- The counters and the gauge of src/observability.rs, and the functions that move them.
pub mod Recorder
use realm_guard_server.Prelude.{ℕ, ◌+◌, ◌-◌, String, Bool, List, [], ◌∷◌, if◌then◌else◌}

-- The labels of one request.
pub record Observed : Type 0 where
  pub method : String
  pub path : String
  pub status : ℕ

pub record Metrics : Type 0 where
  pub deltas_pushed : ℕ
  pub deltas_pulled : ℕ
  pub snapshots_created : ℕ
  pub registrations : ℕ
  pub logins_success : ℕ
  pub logins_failure : ℕ
  pub lockouts : ℕ
  pub ws_connections : ℕ
  -- the last one first
  pub requests : List Observed

abbrev pub no_metrics : Metrics
no_metrics = record {
  deltas_pushed = 0;
  deltas_pulled = 0;
  snapshots_created = 0;
  registrations = 0;
  logins_success = 0;
  logins_failure = 0;
  lockouts = 0;
  ws_connections = 0;
  requests = [];
}

abbrev pub record_delta_pushed : Metrics → Metrics
record_delta_pushed m = record m { deltas_pushed = m.deltas_pushed + 1 }

abbrev pub record_deltas_pulled : ℕ → Metrics → Metrics
record_deltas_pulled n m = record m { deltas_pulled = m.deltas_pulled + n }

abbrev pub record_snapshot_created : Metrics → Metrics
record_snapshot_created m = record m { snapshots_created = m.snapshots_created + 1 }

abbrev pub record_registration : Metrics → Metrics
record_registration m = record m { registrations = m.registrations + 1 }

abbrev pub record_login : Bool → Metrics → Metrics
record_login success m =
    if success
    then record m { logins_success = m.logins_success + 1 }
    else record m { logins_failure = m.logins_failure + 1 }

abbrev pub record_login_lockout : Metrics → Metrics
record_login_lockout m = record m { lockouts = m.lockouts + 1 }

-- `track_ws_connection`, and the drop of its guard
abbrev pub track_ws_connection : Metrics → Metrics
track_ws_connection m = record m { ws_connections = m.ws_connections + 1 }

abbrev pub drop_ws_connection : Metrics → Metrics
drop_ws_connection m = record m { ws_connections = m.ws_connections - 1 }

-- What `track_metrics` records: one of `http_requests_total` by its labels, and beside it a duration of
-- `http_request_duration_seconds` by the first two.
abbrev pub record_request : String → String → ℕ → Metrics → Metrics
record_request method path status m = record m {
  requests = record { method = method; path = path; status = status } ∷ m.requests;
}
