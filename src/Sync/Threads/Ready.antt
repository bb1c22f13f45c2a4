-- ===== src/Sync/Threads/Ready.antt =====
-- What a handler of src/sync_api.rs has found out where it waits, and that it holds there.
use realm_guard_server.Prelude.{
  ◌≤◌, ◌≡◌, refl, inl, inr, Bool, true, false, none, some, List, arith, ℤ, pos, ◌≤ℤ◌, ◌<ℤ◌,
}
use realm_guard_server.Platform.{Platform, Bytes, Uuid}
use realm_guard_server.Database.{Database}
use realm_guard_server.Result.{Result-cases}
use realm_guard_server.World.{World}
use realm_guard_server.Sync.Deltas
use realm_guard_server.Sync.Deltas.{insert_delta, latest}
use realm_guard_server.Sync.Snapshots
use realm_guard_server.Sync.Snapshots.{upsert_snapshot, delete_covered, covered}
use realm_guard_server.Sync.Api
use realm_guard_server.Sync.Api.{decode_bounded, max_snapshot_bytes}
use realm_guard_server.Sync.Effects.{published_db}
use realm_guard_server.Sync.Invariant.{IsSound}
use realm_guard_server.Sync.Rows.{latest-lt, covered-lt}
use realm_guard_server.Sync.Service.{Request}
use realm_guard_server.Sync.Threads.{
  Reply, Pc, idle, arrived, nudging, reading, closing, checking, publishing, answered, advance,
}
use realm_guard_server.Sync.Threads.Tables.{same, inserted, compacted, effect}

-- What a handler that waits has found out: it holds of the tables from then on.
pub record IsReady (db : Database) (pc : Pc) : Type 0 where
  pub checked :
      (account : Uuid) (payload : Bytes) (covers latest_delta : ℤ)
      → pc ≡ checking account payload covers latest_delta
      → (pos 0 ≤ℤ covers) × (latest_delta <ℤ pos db.next_seq)
  pub decided :
      (account : Uuid) (payload : Bytes) (covers : ℤ)
      → pc ≡ publishing account payload covers
      → (pos 0 ≤ℤ covers) × (covers <ℤ pos db.next_seq)

-- Nothing has been found out.
abbrev pub is_quiet : Pc → Bool
is_quiet (checking _ _ _ _) = false
is_quiet (publishing _ _ _) = false
is_quiet _ = true

pub IsReady-quiet : (db : Database) (pc : Pc) → is_quiet pc ≡ true → IsReady db pc
IsReady-quiet db pc h = record {
  checked = λ a payload covers l e. absurd (ground arith);
  decided = λ a payload covers e. absurd (ground arith);
}

module _ {p : Platform} (w : World p) where
  next_seq-insert_delta :
      (account : Uuid) (payload : Bytes)
      → w.db.next_seq ≤ (insert_delta account payload w.db).1.next_seq
  unfolding insert_delta
  next_seq-insert_delta account payload = ground arith

  next_seq-published :
      (account : Uuid) (payload : Bytes) (covers : ℤ)
      → (published_db account w payload covers).next_seq ≡ w.db.next_seq
  unfolding delete_covered upsert_snapshot
  next_seq-published account payload covers = ground arith

  -- The sequence never goes back.
  pub next_seq-le : (pc : Pc) → w.db.next_seq ≤ (advance pc w).1.db.next_seq
  next_seq-le pc = elim (effect w pc) [
    | same e ↦ rw e (omega arith)
    | inserted account payload e ↦ rw e (next_seq-insert_delta account payload)
    | compacted account payload covers n at_commit affected e ↦
        rw e (omega (arith, next_seq-published account payload covers))
  ]

  IsReady-arrived_put :
      (account : Uuid) (body : Api.SnapshotReq)
      → latest account w.db.deltas <ℤ pos w.db.next_seq
      → IsReady w.db (advance (arrived account (Request.put_snapshot body)) w).0
  unfolding advance Deltas.latest_seq
  IsReady-arrived_put account body low = record {
    checked = λ a payload covers l e. (ground arith, ground arith);
    decided = λ a payload covers e. absurd (ground arith);
  }

  IsReady-checking :
      (account : Uuid) (payload : Bytes) (covers latest_delta : ℤ)
      → covered account w.db.snapshots <ℤ pos w.db.next_seq
      → IsReady w.db (checking account payload covers latest_delta)
      → IsReady w.db (advance (checking account payload covers latest_delta) w).0
  unfolding advance Snapshots.covers_seq
  IsReady-checking account payload covers latest_delta low r = record {
    checked = λ a payload' c l e. absurd (ground arith);
    decided = λ a payload' c e. (
      ground (arith, r.checked account payload covers latest_delta refl),
      ground (arith, r.checked account payload covers latest_delta refl),
    );
  }

  -- Every other piece leads to a place where nothing has been found out.
  module _ (db : Database) where
    IsReady-push :
        (account : Uuid) (body : Api.PushReq)
        → IsReady db (advance (arrived account (Request.push body)) w).0
    unfolding advance Deltas.append
    IsReady-push account body = IsReady-quiet db _ (ground arith)

    IsReady-pull :
        (account : Uuid) (query : Api.PullQuery)
        → IsReady db (advance (arrived account (Request.pull query)) w).0
    unfolding advance Snapshots.covers_seq
    IsReady-pull account query = IsReady-quiet db _ (ground arith)

    IsReady-reading :
        (account : Uuid) (since limit : ℤ) → IsReady db (advance (reading account since limit) w).0
    unfolding advance Deltas.since
    IsReady-reading account since limit = IsReady-quiet db _ (ground arith)

    IsReady-closing :
        (account : Uuid) (rows : List (ℤ × Bytes)) → IsReady db (advance (closing account rows) w).0
    unfolding advance Deltas.latest_seq
    IsReady-closing account rows = IsReady-quiet db _ (ground arith)

    IsReady-get : (account : Uuid) → IsReady db (advance (arrived account Request.get_snapshot) w).0
    unfolding advance
    IsReady-get account = IsReady-quiet db _ (ground arith)

    IsReady-nudging : (account : Uuid) (seq : ℤ) → IsReady db (advance (nudging account seq) w).0
    unfolding advance
    IsReady-nudging account seq = IsReady-quiet db _ (ground arith)

    IsReady-idle : IsReady db (advance idle w).0
    unfolding advance
    IsReady-idle = IsReady-quiet db _ refl

    IsReady-answered : (reply : Reply) → IsReady db (advance (answered reply) w).0
    unfolding advance
    IsReady-answered reply = IsReady-quiet db _ refl

    IsReady-publishing :
        (account : Uuid) (payload : Bytes) (covers : ℤ)
        → IsReady db (advance (publishing account payload covers) w).0
    unfolding advance
    IsReady-publishing account payload covers =
        elim (Result-cases (Snapshots.put account payload covers w).0) [
          | inr (e, bad) ↦ IsReady-quiet db _ (ground arith)
          | inl (none, older) ↦ IsReady-quiet db _ (ground arith)
          | inl (some put, newer) ↦ IsReady-quiet db _ (ground arith)
        ]

  -- With tables that are grown, what was found out holds still.
  pub IsReady-grown :
      (db : Database) (pc : Pc) → w.db.next_seq ≤ db.next_seq → IsReady w.db pc → IsReady db pc
  IsReady-grown db pc h r = record {
    checked = λ a payload covers l e.
        ((r.checked a payload covers l e).0, omega (arith, (r.checked a payload covers l e).1));
    decided = λ a payload covers e.
        ((r.decided a payload covers e).0, omega (arith, (r.decided a payload covers e).1));
  }

  -- What the next place of a handler rests on holds there.
  pub IsReady-advance : (pc : Pc) → IsSound w.db → IsReady w.db pc → IsReady w.db (advance pc w).0
  IsReady-advance (arrived account (Request.push body)) v r = IsReady-push w.db account body
  IsReady-advance (arrived account (Request.pull query)) v r = IsReady-pull w.db account query
  IsReady-advance (arrived account (Request.put_snapshot body)) v r =
      IsReady-arrived_put account body (latest-lt w.db v account)
  IsReady-advance (arrived account Request.get_snapshot) v r = IsReady-get w.db account
  IsReady-advance (nudging account seq) v r = IsReady-nudging w.db account seq
  IsReady-advance (reading account since limit) v r = IsReady-reading w.db account since limit
  IsReady-advance (closing account rows) v r = IsReady-closing w.db account rows
  IsReady-advance (checking account payload covers latest_delta) v r =
      IsReady-checking account payload covers latest_delta (covered-lt w.db v account) r
  IsReady-advance (publishing account payload covers) v r =
      IsReady-publishing w.db account payload covers
  IsReady-advance idle v r = IsReady-idle w.db
  IsReady-advance (answered reply) v r = IsReady-answered w.db reply
