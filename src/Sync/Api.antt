-- ===== src/Sync/Api.antt =====
-- src/sync_api.rs: the handlers of /sync/deltas and /sync/snapshot, for an account that the
-- session has authenticated.
use realm_guard_server.Prelude.{
  ℕ, ◌*◌, String, Bool, ◌||◌, Option, none, some, List, map, ltb, length, ℤ, pos, ltb_ℤ, max_ℤ,
  clamp_ℤ, if◌then◌else◌,
}
use realm_guard_server.Platform.{Platform, Bytes, Uuid}
use realm_guard_server.Result
use realm_guard_server.Result.{
  Result, ok, err, ok_or, internal, StatusCode, created, bad_request, not_found, conflict, gone,
}
use realm_guard_server.Metrics.{record_delta_pushed, record_deltas_pulled, record_snapshot_created}
use realm_guard_server.World.{Exec, pure, fail, lift, count, map_err, ◌>>=◌, ◌>>◌}
use realm_guard_server.Sync.Deltas
use realm_guard_server.Sync.Snapshots
use realm_guard_server.Sync.Nudge.{publish_nudge}

abbrev pub max_payload_bytes : ℕ
max_payload_bytes = 1024 * 1024

abbrev pub max_snapshot_bytes : ℕ
max_snapshot_bytes = 8 * 1024 * 1024

abbrev pub default_limit : ℤ
default_limit = pos 500

abbrev pub max_limit : ℤ
max_limit = pos 1000

pub record PushReq : Type 0 where
  pub payload : String

pub record PushResp : Type 0 where
  pub seq : ℤ

pub record PullQuery : Type 0 where
  pub since : Option ℤ
  pub limit : Option ℤ

pub record DeltaResp : Type 0 where
  pub seq : ℤ
  pub payload : String

pub record PullResp : Type 0 where
  pub deltas : List DeltaResp
  pub latest : ℤ

pub record SnapshotReq : Type 0 where
  pub payload : String
  pub covers_seq : ℤ

pub record SnapshotPutResp : Type 0 where
  pub purged : ℕ

pub record SnapshotResp : Type 0 where
  pub payload : String
  pub covers_seq : ℤ

abbrev is_empty : Bytes → Bool
is_empty b = ltb (length b) 1

abbrev checked : ℕ → Bytes → Result StatusCode Bytes
checked max payload =
    if is_empty payload || ltb max (length payload) then err bad_request else ok payload

unfoldable pub decode_bounded : Platform → String → ℕ → Result StatusCode Bytes
decode_bounded p value max = Result.◌>>=◌ (ok_or bad_request (p.decode64 value)) (checked max)

unfoldable pub decode_payload : Platform → String → Result StatusCode Bytes
unfolding decode_bounded
decode_payload p value = decode_bounded p value max_payload_bytes

abbrev unwrap_or : ℤ → Option ℤ → ℤ
unwrap_or d none = d
unwrap_or d (some x) = x

unfoldable pub normalize_since : Option ℤ → ℤ
normalize_since since = max_ℤ (unwrap_or (pos 0) since) (pos 0)

unfoldable pub normalize_limit : Option ℤ → ℤ
normalize_limit limit = clamp_ℤ (unwrap_or default_limit limit) (pos 1) max_limit

abbrev pub delta_resp : Platform → ℤ × Bytes → DeltaResp
delta_resp p (seq, payload) = record { seq = seq; payload = p.encode64 payload }

module _ {p : Platform} (account : Uuid) where
  unfoldable pub push : PushReq → Exec p StatusCode (StatusCode × PushResp)
  unfolding Deltas.append publish_nudge
  push body = do
    payload ← lift (decode_payload p body.payload)
    seq ← map_err internal (Deltas.append account payload)
    count record_delta_pushed
    publish_nudge account seq
    pure (created, record { seq = seq })

  unfoldable pub pull : PullQuery → Exec p StatusCode PullResp
  unfolding Snapshots.covers_seq Deltas.since Deltas.latest_seq
  pull query = do
    let since = normalize_since query.since
    let limit = normalize_limit query.limit
    covers ← map_err internal (Snapshots.covers_seq account)
    if ltb_ℤ since covers then fail gone else do
      rows ← map_err internal (Deltas.since account since limit)
      latest ← map_err internal (Deltas.latest_seq account)
      count (record_deltas_pulled (length rows))
      pure (record { deltas = map (delta_resp p) rows; latest = latest })

  unfoldable pub put_snapshot : SnapshotReq → Exec p StatusCode SnapshotPutResp
  unfolding Deltas.latest_seq Snapshots.covers_seq Snapshots.put
  put_snapshot body = do
    payload ← lift (decode_bounded p body.payload max_snapshot_bytes)
    if ltb_ℤ body.covers_seq (pos 0) then fail bad_request else do
      latest_delta ← map_err internal (Deltas.latest_seq account)
      already_covered ← map_err internal (Snapshots.covers_seq account)
      if ltb_ℤ (max_ℤ latest_delta already_covered) body.covers_seq then fail bad_request else do
        put ← map_err internal (Snapshots.put account payload body.covers_seq)
        result ← lift (ok_or conflict put)
        count record_snapshot_created
        pure (record { purged = result.purged })

  unfoldable pub get_snapshot : Exec p StatusCode SnapshotResp
  unfolding Snapshots.get
  get_snapshot = do
    row ← map_err internal (Snapshots.get account)
    found ← lift (ok_or not_found row)
    pure (record { payload = p.encode64 found.0; covers_seq = found.1 })
