-- ===== src/Sync/Threads/Skipped.antt =====
-- Theorems on a `pull` of src/sync_api.rs between whose statements a publication runs.
use realm_guard_server.Prelude.{
  ℕ, zero, suc, ◌≡◌, refl, ap, ◌∙◌, false, Bool-cases, inl, inr, List, [], ◌∷◌, arith, ◌==◌,
  ==_refl, All, ℤ, pos, ◌≤◌, ◌≤ℤ◌, ◌<ℤ◌, ◌↔◌, All-take, pos_part, Option, filter, not,
}
use realm_guard_server.Prelude.Order.{order_by-All}
use realm_guard_server.Platform.{Platform, Uuid}
use realm_guard_server.Database.{DeltaRow}
use realm_guard_server.Result.{ok, err, gone}
use realm_guard_server.World.{World}
use realm_guard_server.Sync.Deltas
use realm_guard_server.Sync.Deltas.{is_after, select_since, latest}
use realm_guard_server.Sync.Publication.{put_snapshot-IsCompaction}
use realm_guard_server.Sync.Sizes.{All-page}
use realm_guard_server.Sync.Snapshots
use realm_guard_server.Sync.Snapshots.{covered, is_covered}
use realm_guard_server.Sync.Api
use realm_guard_server.Sync.Api.{
  PullQuery, PullResp, DeltaResp, SnapshotReq, SnapshotPutResp, delta_resp, normalize_since,
  normalize_limit,
}
use realm_guard_server.Sync.Paging.{page}
use realm_guard_server.Sync.Service.{Request}
use realm_guard_server.Sync.Threads.{
  pulled, published, Pc, idle, arrived, reading, answered, advance, System, run, arrive, Run, here,
  next, update,
}
use realm_guard_server.Sync.Threads.Alone.{pieces, pieces-handle}

-- The system after one handler has run alone.
pub record HasRun {p : Platform} (s t : System p) (i : ℕ) (w : World p) (pc : Pc) : Type 0 where
  pub world : t.world ≡ w
  pub place : t.pc i ≡ pc
  pub others : (j : ℕ) → (j == i) ≡ false → t.pc j ≡ s.pc j

Run-pieces :
    {p : Platform} (n i : ℕ) {r s : System p}
    → Run r s
    → (t : System p) × Run r t
      × HasRun s t i (pieces n (s.pc i) s.world).1 (pieces n (s.pc i) s.world).0
unfolding pieces
Run-pieces zero i {r} {s} m = (s, m, record { world = refl; place = refl; others = λ j e. refl })
Run-pieces {p} (suc n) i {r} {s} m =
    let s' : System p = record {
      world = (advance (s.pc i) s.world).1;
      pc = update s.pc i (advance (s.pc i) s.world).0;
    } in
    let (t, m', h) = Run-pieces n i (next m (run i)) in
    let at : s'.pc i ≡ (advance (s.pc i) s.world).0 = rw (==_refl i) refl in
    (
      t,
      m',
      record {
        world = h.world ∙ ap (λ pc. (pieces n pc s'.world).1) at;
        place = h.place ∙ ap (λ pc. (pieces n pc s'.world).0) at;
        others = λ j e. h.others j e ∙ rw e refl;
      },
    )

module _ {p : Platform} (account : Uuid) (w : World p) (up : w.schedule ≡ []) where
  -- The first piece of a pull whose cursor the snapshot does not pass.
  admitted :
      (query : PullQuery)
      → covered account w.db.snapshots ≤ℤ normalize_since query.since
      → advance (arrived account (Request.pull query)) w
        ≡ (reading account (normalize_since query.since) (normalize_limit query.limit), w)
  unfolding advance Snapshots.covers_seq
  admitted query near = ground arith

-- The last two pieces of a pull.
finished :
    {p : Platform} (account : Uuid) (since : ℤ) (limit : Option ℤ) (w : World p)
    → w.schedule ≡ []
    → (r : PullResp) × ((pieces 2 (reading account since (normalize_limit limit)) w).0
        ≡ answered (pulled (ok r)))
      × (r.deltas ≡ page p account since (normalize_limit limit) w.db.deltas)
unfolding pieces advance Deltas.since Deltas.latest_seq normalize_limit
finished {p} account since limit w up = (
  record {
    deltas = page p account since (normalize_limit limit) w.db.deltas;
    latest = latest account w.db.deltas;
  },
  ground arith,
  refl,
)

schedule-put_snapshot :
    {p : Platform} (account : Uuid) (body : SnapshotReq) (w : World p)
    → w.schedule ≡ []
    → (Api.put_snapshot account body w).1.schedule ≡ []
unfolding Api.put_snapshot
schedule-put_snapshot account body w up = ground arith

-- What a compacted log has to read lies past the snapshot.
module _ (account : Uuid) (covers since : ℤ) where
  All-compacted :
      (ds : List DeltaRow)
      → All
          (λ d. covers <ℤ pos d.seq)
          (filter (is_after account since) (filter (λ d. not (is_covered account covers d)) ds))
  All-compacted [] = tt
  All-compacted (d ∷ ds) = elim (Bool-cases (is_covered account covers d)) [
    | inl e ↦ rw e (All-compacted ds)
    | inr e ↦ rw e (elim (Bool-cases (is_after account since d)) [
      | inl k ↦ rw k (ground arith, All-compacted ds)
      | inr k ↦ rw k (All-compacted ds)
    ])
  ]

  All-select_since :
      (limit : ℤ) (ds : List DeltaRow)
      → All
          (λ d. covers <ℤ pos d.seq)
          (select_since account since limit (filter (λ d. not (is_covered account covers d)) ds))
  unfolding select_since
  All-select_since limit ds = All-take _ (pos_part limit) _ (order_by-All _ _ _ (All-compacted ds))

gone_iff :
    {p : Platform} (account : Uuid) (query : PullQuery) (w : World p) {covers : ℤ}
    → w.schedule ≡ []
    → covered account w.db.snapshots ≡ covers
    → ((Api.pull account query w).0 ≡ err gone) ↔ (normalize_since query.since <ℤ covers)
unfolding Api.pull normalize_limit
gone_iff account query w up at = ground arith

four_le : ◌≤◌ 4 4
four_le = omega arith

module _ {p : Platform} (account : Uuid) (w : World p) (query : PullQuery) (body : SnapshotReq)
    (up : w.schedule ≡ [])
    (near : covered account w.db.snapshots ≤ℤ normalize_since query.since) where
  abbrev halfway : Pc
  halfway = reading account (normalize_since query.since) (normalize_limit query.limit)

  abbrev after_put : World p
  after_put = (Api.put_snapshot account body w).1

  -- The pull up to its check of the cursor, the publication, and the rest of the pull.
  in_between :
      (t : System p) × Run (record { world = w; pc = λ i. idle }) t
      × (t.pc 1 ≡ answered (published (Api.put_snapshot account body w).0))
      × (t.pc 0 ≡ (pieces 2 halfway after_put).0)
  unfolding pieces
  in_between =
      let arrived_pull = arrived account (Request.pull query) in
      let arrived_put = arrived account (Request.put_snapshot body) in
      let (t, m, h) = Run-pieces 1 0 (next here (arrive 0 account (Request.pull query) refl)) in
      let at : t.world ≡ w = h.world ∙ ap (λ x. x.1) (admitted account w up query near) in
      let half : t.pc 0 ≡ halfway = h.place ∙ ap (λ x. x.0) (admitted account w up query near) in
      let (u, m', k) =
        Run-pieces 4 1 (next m (arrive 1 account (Request.put_snapshot body) (h.others 1 refl))) in
      let alone = pieces-handle account (Request.put_snapshot body) w 4 four_le in
      let at' : u.world ≡ after_put =
        k.world ∙ ap (λ x. (pieces 4 arrived_put x).1) at ∙ ap (λ x. x.1) alone in
      let placed : u.pc 1 ≡ answered (published (Api.put_snapshot account body w).0) =
        k.place ∙ ap (λ x. (pieces 4 arrived_put x).0) at ∙ ap (λ x. x.0) alone in
      let half' : u.pc 0 ≡ halfway = k.others 0 refl ∙ half in
      let (v, m'', l) = Run-pieces 2 0 m' in
      (
        v,
        m'',
        l.others 1 refl ∙ placed,
        l.place ∙ ap (λ pc. (pieces 2 pc u.world).0) half' ∙ ap (λ x. (pieces 2 halfway x).0) at',
      )

-- A publication can hide deltas from a pull that is under way: whatever the tables, with the services
-- up, for a cursor that the snapshot of the account does not pass and a publication that is accepted,
-- an order of statements answers both requests with success, and the pull has no delta at or
-- below the seq that is then covered, where the same pull run after the publication is answered with
-- 410 if that seq lies past its cursor.
pub pull_skips :
    {p : Platform} (account : Uuid) (w : World p) (query : PullQuery) (body : SnapshotReq)
    (put : SnapshotPutResp)
    → w.schedule ≡ []
    → covered account w.db.snapshots ≤ℤ normalize_since query.since
    → (Api.put_snapshot account body w).0 ≡ ok put
    → (t : System p) × (r : PullResp) × Run (record { world = w; pc = λ i. idle }) t
      × (t.pc 1 ≡ answered (published (ok put)))
      × (t.pc 0 ≡ answered (pulled (ok r)))
      × All (λ d. body.covers_seq <ℤ d.seq) r.deltas
      × (((Api.pull account query (Api.put_snapshot account body w).1).0 ≡ err gone)
          ↔ (normalize_since query.since <ℤ body.covers_seq))
pull_skips {p} account w query body put up near accepted =
    let (t, m, placed, place) = in_between account w query body up near in
    let after = (Api.put_snapshot account body w).1 in
    let up' = schedule-put_snapshot account body w up in
    let (r, done, deltas) = finished account (normalize_since query.since) query.limit after up' in
    let (payload, good, c) = put_snapshot-IsCompaction account body w put accepted in
    (
      t,
      r,
      m,
      placed ∙ ap (λ x. answered (published x)) accepted,
      place ∙ done,
      rw (deltas, c.remaining)
          (All-page p body.covers_seq _ (
            All-select_since account body.covers_seq (normalize_since query.since)
              (normalize_limit query.limit) w.db.deltas)),
      gone_iff account query after up' c.covers,
    )
