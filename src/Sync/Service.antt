-- ===== src/Sync/Service.antt =====
-- The synchronisation service in time: requests of any accounts, any answers of the services, and
-- steps of the rest of the server in between (src/sync_api.rs).
use realm_guard_server.Prelude.{inl, inr, arith}
use realm_guard_server.Platform.{Platform, Uuid}
use realm_guard_server.World.{World}
use realm_guard_server.Sync.Api
use realm_guard_server.Sync.Api.{PushReq, PullQuery, SnapshotReq, PushResp}
use realm_guard_server.Sync.Invariant.{IsSound, IsSound-insert_delta, IsSound-put}
use realm_guard_server.Sync.Rows.{latest-lt, covered-lt}
use realm_guard_server.Sync.Effects.{
  db-push, db-pull, db-put_snapshot, db-get_snapshot, snapshot_row,
}

pub data Request : Type 0 where
  push : PushReq → Request
  pull : PullQuery → Request
  put_snapshot : SnapshotReq → Request
  get_snapshot : Request

abbrev pub handle : {p : Platform} → Uuid → Request → World p → World p
handle account (Request.push body) w = (Api.push account body w).1
handle account (Request.pull query) w = (Api.pull account query w).1
handle account (Request.put_snapshot body) w = (Api.put_snapshot account body w).1
handle account Request.get_snapshot w = (Api.get_snapshot account w).1

-- The tables that this service owns are those of `w`; all else is that of `w'`.
abbrev pub keeping : {p : Platform} → World p → World p → World p
keeping w w' = record w' {
  db = record w'.db { deltas = w.db.deltas; next_seq = w.db.next_seq; snapshots = w.db.snapshots };
}

pub data Step {p : Platform} : World p → World p → Type 0 where
  request : (account : Uuid) (r : Request) (w : World p) → Step w (handle account r w)
  -- time, the other endpoints, and the answers that the services are going to give
  other : (w w' : World p) → Step w (keeping w w')

pub data Reach {p : Platform} (w : World p) : World p → Type 0 where
  here : Reach w w
  next : {u v : World p} → Reach w u → Step u v → Reach w v

module _ {p : Platform} (account : Uuid) (w : World p) (v : IsSound w.db) where
  IsSound-push : (body : PushReq) → IsSound (Api.push account body w).1.db
  IsSound-push body = elim (db-push account w body) [
    | inl e ↦ rw e v
    | inr (payload, _, e) ↦ rw e (IsSound-insert_delta account payload w.db v)
  ]

  IsSound-put_snapshot : (body : SnapshotReq) → IsSound (Api.put_snapshot account body w).1.db
  IsSound-put_snapshot body = elim (db-put_snapshot account w body) [
    | inl e ↦ rw e v
    | inr (payload, _, h, e) ↦ rw e (
        IsSound-put (snapshot_row account w payload body.covers_seq) w.db h.low
          (ground (arith, h.high, latest-lt w.db v account, covered-lt w.db v account)) v
          h.affected)
  ]

  IsSound-handle : (r : Request) → IsSound (handle account r w).db
  IsSound-handle (Request.push body) = IsSound-push body
  IsSound-handle (Request.pull query) = rw (db-pull account w query) v
  IsSound-handle (Request.put_snapshot body) = IsSound-put_snapshot body
  IsSound-handle Request.get_snapshot = rw (db-get_snapshot account w) v

pub IsSound-keeping : {p : Platform} (w w' : World p) → IsSound w.db → IsSound (keeping w w').db
IsSound-keeping w w' v = record {
  ascending = v.ascending;
  drawn = v.drawn;
  started = v.started;
  bounded = v.bounded;
  compacted = v.compacted;
}

-- Every step keeps the log and the snapshots well-formed.
pub Step-IsSound : {p : Platform} {u v : World p} → Step u v → IsSound u.db → IsSound v.db
Step-IsSound (request account r w) h = IsSound-handle account w h r
Step-IsSound (other w w') h = IsSound-keeping w w' h
