-- ===== src/Sync/Commits/Past.antt =====
-- Snapshots of src/snapshots.rs cover more and more, and src/sync_api.rs delivers nothing that they cover.
use realm_guard_server.Prelude.{
  ◌≡◌, inl, inr, List, [], ◌∷◌, ◌++◌, arith, ==_refl, All, pos, All-take, All-imp, pos_part, ◌≤ℤ◌,
  ◌<ℤ◌,
}
use realm_guard_server.Platform.{Platform, Uuid}
use realm_guard_server.Database.{DeltaRow}
use realm_guard_server.Result.{ok}
use realm_guard_server.World.{World}
use realm_guard_server.Sync.Api
use realm_guard_server.Sync.Api.{
  PushReq, PushResp, SnapshotReq, SnapshotPutResp, PullQuery, PullResp, decode_payload,
  decode_bounded, max_snapshot_bytes, normalize_since, normalize_limit,
}
use realm_guard_server.Sync.Deltas.{latest, select_since}
use realm_guard_server.Prelude.Order.{order_by-All}
use realm_guard_server.Sync.Sizes.{All-page}
use realm_guard_server.Sync.Paging.{pull-eq-ok, All-after}
use realm_guard_server.Sync.Effects.{db-push, db-pull, db-put_snapshot, db-get_snapshot}
use realm_guard_server.Sync.Threads.Interleaved.{covered-published, covered-insert_delta}
use realm_guard_server.Sync.Snapshots.{covered}
use realm_guard_server.Sync.Service
use realm_guard_server.Sync.Service.{Request, Reach, handle, request, other}

pub le-latest :
    (account : Uuid) (ds : List DeltaRow) (d : DeltaRow)
    → d.account_id ≡ account
    → pos d.seq ≤ℤ latest account (ds ++ d ∷ [])
unfolding latest
le-latest account [] d mine = ground (arith, ==_refl account)
le-latest account (x ∷ xs) d mine = ground (arith, le-latest account xs d mine)

-- What is delivered lies past the snapshot.
pub pull-past_covered :
    {p : Platform} (account : Uuid) (query : PullQuery) (v : World p) (r : PullResp)
    → (Api.pull account query v).0 ≡ ok r
    → All (λ d. covered account v.db.snapshots <ℤ d.seq) r.deltas
unfolding select_since
pull-past_covered {p} account query v r h =
    let since = normalize_since query.since in
    let (near, page, _) = pull-eq-ok account query v r h in
    let rows =
      All-take _ (pos_part (normalize_limit query.limit)) _
        (order_by-All _ _ _ (All-after account since v.db.deltas)) in
    rw page (
      All-page p (covered account v.db.snapshots) _
        (All-imp _ _ (λ d k. ground (arith, near)) _ rows))

covered-handle :
    {p : Platform} (mine : Uuid) (r : Request) (w : World p) (account : Uuid)
    → covered account w.db.snapshots ≤ℤ covered account (handle mine r w).db.snapshots
covered-handle mine (Request.push body) w account = elim (db-push mine w body) [
  | inl e ↦ rw e (omega arith)
  | inr (payload, _, e) ↦ rw e (covered-insert_delta w mine payload account)
]
covered-handle mine (Request.pull query) w account = rw (db-pull mine w query) (omega arith)
covered-handle mine (Request.put_snapshot body) w account = elim (db-put_snapshot mine w body) [
  | inl e ↦ rw e (omega arith)
  | inr (payload, _, done, e) ↦
      rw e (covered-published w mine payload body.covers_seq account done.affected done.low)
]
covered-handle mine Request.get_snapshot w account = rw (db-get_snapshot mine w) (omega arith)

pub covered-Reach :
    {p : Platform} {u v : World p} (account : Uuid)
    → Reach u v
    → covered account u.db.snapshots ≤ℤ covered account v.db.snapshots
covered-Reach account Service.here = omega arith
covered-Reach account (Service.next r (request mine q w)) =
    omega (arith, covered-Reach account r, covered-handle mine q w account)
covered-Reach account (Service.next r (other w w')) = covered-Reach account r
