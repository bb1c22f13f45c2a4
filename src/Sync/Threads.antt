-- ===== src/Sync/Threads.antt =====
-- The handlers of src/sync_api.rs at the grain of their statements: what runs between two points at
-- which the handler waits for a service, so that any number of requests can interleave there. The
-- transaction of a publication is one such piece: it takes effect at its commit.
pub mod Alone
pub mod Tables
pub mod Ready
pub mod Interleaved
pub mod Skipped
mod Examples
use realm_guard_server.Prelude.{
  ℕ, ◌≡◌, List, Option, none, some, ℤ, pos, map, length, ltb_ℤ, max_ℤ, ◌==◌, if◌then◌else◌,
}
use realm_guard_server.Platform.{Platform, Bytes, Uuid}
use realm_guard_server.Result.{
  Result, ok, err, ok_or, internal, StatusCode, created, bad_request, not_found, conflict, gone,
}
use realm_guard_server.Metrics.{record_delta_pushed, record_deltas_pulled, record_snapshot_created}
use realm_guard_server.World.{World, map_error}
use realm_guard_server.Sync.Deltas
use realm_guard_server.Sync.Snapshots
use realm_guard_server.Sync.Nudge.{publish_nudge}
use realm_guard_server.Sync.Api
use realm_guard_server.Sync.Api.{
  PushResp, PullResp, SnapshotPutResp, SnapshotResp, delta_resp, decode_payload, decode_bounded,
  normalize_since, normalize_limit, max_snapshot_bytes,
}
use realm_guard_server.Sync.Service
use realm_guard_server.Sync.Service.{Request, keeping}

pub data Reply : Type 0 where
  pushed : Result StatusCode (StatusCode × PushResp) → Reply
  pulled : Result StatusCode PullResp → Reply
  published : Result StatusCode SnapshotPutResp → Reply
  fetched : Result StatusCode SnapshotResp → Reply

-- Where a handler waits.
pub data Pc : Type 0 where
  idle : Pc
  arrived : Uuid → Request → Pc
  -- of `push`: before the nudge
  nudging : Uuid → ℤ → Pc
  -- of `pull`: past the check of the cursor, and with the rows read
  reading : Uuid → ℤ → ℤ → Pc
  closing : Uuid → List (ℤ × Bytes) → Pc
  -- of `put_snapshot`: with the last seq read, and past both checks
  checking : Uuid → Bytes → ℤ → ℤ → Pc
  publishing : Uuid → Bytes → ℤ → Pc
  answered : Reply → Pc

-- What one piece leads to.
abbrev proceed : {E A : Type 0} → (E → Pc) → (A → Pc) → Result E A → Pc
proceed failed k (ok a) = k a
proceed failed k (err e) = failed e

abbrev push_failed : StatusCode → Pc
push_failed e = answered (pushed (err e))

abbrev pull_failed : StatusCode → Pc
pull_failed e = answered (pulled (err e))

abbrev put_failed : StatusCode → Pc
put_failed e = answered (published (err e))

module _ {p : Platform} (account : Uuid) where
  -- The INSERT of a push, and its counter.
  abbrev insert : Result StatusCode Bytes → World p → Pc × World p
  insert (err e) w = (push_failed e, w)
  insert (ok payload) w =
      let (r, w') = Deltas.append account payload w in
      elim r [
        | ok seq ↦ (nudging account seq, record w' { metrics = record_delta_pushed w'.metrics })
        | err e ↦ (push_failed (internal e), w')
      ]

  abbrev nudge : ℤ → World p → Pc × World p
  nudge seq w =
      (answered (pushed (ok (created, record { seq = seq }))), (publish_nudge account seq w).1)

  -- The check of a cursor against the snapshot.
  abbrev admit : ℤ → ℤ → World p → Pc × World p
  admit since limit w =
      let (r, w') = Snapshots.covers_seq account w in
      (
        proceed (λ e. pull_failed (internal e))
            (λ covers. if ltb_ℤ since covers then pull_failed gone else reading account since limit)
            r,
        w',
      )

  abbrev read : ℤ → ℤ → World p → Pc × World p
  read since limit w =
      let (r, w') = Deltas.since account since limit w in
      (proceed (λ e. pull_failed (internal e)) (closing account) r, w')

  abbrev close : List (ℤ × Bytes) → World p → Pc × World p
  close rows w =
      let (r, w') = Deltas.latest_seq account w in
      elim r [
        | err e ↦ (pull_failed (internal e), w')
        | ok latest ↦ (
          answered (pulled (ok (record { deltas = map (delta_resp p) rows; latest = latest }))),
          record w' { metrics = record_deltas_pulled (length rows) w'.metrics },
        )
      ]

  -- The first read of a publication, whose body passed its checks.
  abbrev measure : ℤ → Result StatusCode Bytes → World p → Pc × World p
  measure covers (err e) w = (put_failed e, w)
  measure covers (ok payload) w =
      if ltb_ℤ covers (pos 0)
      then (put_failed bad_request, w)
      else (let (r, w') = Deltas.latest_seq account w in
          (proceed (λ e. put_failed (internal e)) (checking account payload covers) r, w'))

  -- The second read, and the bound on what may be covered.
  abbrev check : Bytes → ℤ → ℤ → World p → Pc × World p
  check payload covers latest w =
      let (r, w') = Snapshots.covers_seq account w in
      (
        proceed (λ e. put_failed (internal e))
            (λ already.
              if ltb_ℤ (max_ℤ latest already) covers
              then put_failed bad_request
              else publishing account payload covers)
            r,
        w',
      )

  abbrev publish : Bytes → ℤ → World p → Pc × World p
  publish payload covers w =
      let (r, w') = Snapshots.put account payload covers w in
      elim r [
        | err e ↦ (put_failed (internal e), w')
        | ok none ↦ (put_failed conflict, w')
        | ok (some put) ↦ (
          answered (published (ok (record { purged = put.purged }))),
          record w' { metrics = record_snapshot_created w'.metrics },
        )
      ]

  abbrev fetch : World p → Pc × World p
  fetch w = let (r, w') = Api.get_snapshot account w in (answered (fetched r), w')

-- One piece of a handler.
unfoldable pub advance : {p : Platform} → Pc → World p → Pc × World p
unfolding Snapshots.put
advance {p} (arrived account (Request.push body)) w =
    insert account (decode_payload p body.payload) w
advance (nudging account seq) w = nudge account seq w
advance (arrived account (Request.pull query)) w =
    admit account (normalize_since query.since) (normalize_limit query.limit) w
advance (reading account since limit) w = read account since limit w
advance (closing account rows) w = close account rows w
advance {p} (arrived account (Request.put_snapshot body)) w =
    measure account body.covers_seq (decode_bounded p body.payload max_snapshot_bytes) w
advance (checking account payload covers latest) w = check account payload covers latest w
advance (publishing account payload covers) w = publish account payload covers w
advance (arrived account Request.get_snapshot) w = fetch account w
advance idle w = (idle, w)
advance (answered r) w = (answered r, w)

-- Any number of requests in flight over one world.
pub record System (p : Platform) : Type 0 where
  pub world : World p
  pub pc : ℕ → Pc

abbrev pub update : (ℕ → Pc) → ℕ → Pc → ℕ → Pc
update pcs i pc j = if j == i then pc else pcs j

-- One handler runs its next piece; a request comes in; or time passes, the other endpoints run and
-- the services change what they are going to answer.
pub data Turn {p : Platform} (s : System p) : System p → Type 0 where
  run :
      (i : ℕ)
      → Turn s (record {
        world = (advance (s.pc i) s.world).1;
        pc = update s.pc i (advance (s.pc i) s.world).0;
      })
  arrive :
      (i : ℕ) (account : Uuid) (r : Request)
      → s.pc i ≡ idle
      → Turn s (record { world = s.world; pc = update s.pc i (arrived account r) })
  other : (w : World p) → Turn s (record { world = keeping s.world w; pc = s.pc })

pub data Run {p : Platform} (s : System p) : System p → Type 0 where
  here : Run s s
  next : {t u : System p} → Run s t → Turn t u → Run s u
