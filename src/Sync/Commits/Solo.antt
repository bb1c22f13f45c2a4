-- ===== src/Sync/Commits/Solo.antt =====
-- Handlers of src/sync_api.rs that run for some steps with no other in between.
use realm_guard_server.Prelude.{
  ℕ, zero, suc, ◌+◌, ◌≡◌, ◌≤◌, refl, ap, ◌∙◌, true, false, inl, inr, Option-cases, [], arith, ◌==◌,
  ==_refl, pos, count_where, ◌≤ℤ◌, ◌<ℤ◌,
}
use realm_guard_server.Platform.{Platform, Bytes, Uuid}
use realm_guard_server.Database.{has_account, max_bigint}
use realm_guard_server.Result.{ok, created}
use realm_guard_server.World.{World}
use realm_guard_server.Sync.Nudge.{publish_nudge}
use realm_guard_server.Sync.Api
use realm_guard_server.Sync.Api.{
  PushReq, PushResp, SnapshotReq, SnapshotPutResp, PullQuery, PullResp, decode_payload,
  decode_bounded, max_snapshot_bytes, normalize_since, normalize_limit,
}
use realm_guard_server.Sync.Deltas.{latest}
use realm_guard_server.Sync.Snapshots.{
  covered, snapshot_of, is_covered, upsert_snapshot, delete_covered,
}
use realm_guard_server.Sync.Service.{Request}
use realm_guard_server.Sync.Threads.{arrived, answered, pushed, published}
use realm_guard_server.Sync.Commits.{
  Place, at, committing, step, visible, System, Run, run, next, update,
}

unfoldable pub steps : {p : Platform} → ℕ → Place → World p → Place × World p
steps zero place w = (place, w)
steps (suc n) place w = let (place', w') = step place w in steps n place' w'

-- The system after one handler has run for some steps with no other in between.
pub record HasRun {p : Platform} (s t : System p) (i : ℕ) (w : World p) (place : Place)
    : Type 0 where
  pub world : t.world ≡ w
  pub here : t.place i ≡ place
  pub others : (j : ℕ) → (j == i) ≡ false → t.place j ≡ s.place j

Run-steps :
    {p : Platform} (n i : ℕ) {r s : System p}
    → Run r s
    → (t : System p) × Run r t
      × HasRun s t i (steps n (s.place i) s.world).1 (steps n (s.place i) s.world).0
unfolding steps
Run-steps zero i {r} {s} m = (s, m, record { world = refl; here = refl; others = λ j e. refl })
Run-steps {p} (suc n) i {r} {s} m =
    let s' : System p = record {
      world = (step (s.place i) s.world).1;
      place = update s.place i (step (s.place i) s.world).0;
    } in
    let (t, m', h) = Run-steps n i (next m (run i)) in
    let reached : s'.place i ≡ (step (s.place i) s.world).0 = rw (==_refl i) refl in
    (
      t,
      m',
      record {
        world = h.world ∙ ap (λ place. (steps n place s'.world).1) reached;
        here = h.here ∙ ap (λ place. (steps n place s'.world).0) reached;
        others = λ j e. h.others j e ∙ rw e refl;
      },
    )

-- The same from a world and a place that are known.
pub solo :
    {p : Platform} (n i : ℕ) {r s : System p} {w : World p} {place : Place}
    → Run r s
    → s.world ≡ w
    → s.place i ≡ place
    → (t : System p) × Run r t × HasRun s t i (steps n place w).1 (steps n place w).0
solo {p} n i {r} {s} {w} {place} m there placed =
    let (t, m', h) = Run-steps n i m in
    let e : steps n (s.place i) s.world ≡ steps n place w =
      ap (λ x. steps n x s.world) placed ∙ ap (steps n place) there in
    (
      t,
      m',
      record {
        world = h.world ∙ ap (λ x. x.1) e;
        here = h.here ∙ ap (λ x. x.0) e;
        others = h.others;
      },
    )

module _ {p : Platform} (account : Uuid) (w : World p) (up : w.schedule ≡ []) where
  -- An INSERT that draws.
  pub drawn :
      (body : PushReq) (payload : Bytes)
      → decode_payload p body.payload ≡ ok payload
      → w.db.next_seq ≤ max_bigint
      → has_account account w.db ≡ true
      → steps 1 (at (arrived account (Request.push body))) w ≡ (
        committing account w.db.next_seq payload,
        record w { db = record w.db { next_seq = w.db.next_seq + 1 } },
      )
  unfolding steps step
  drawn body payload good room known = ground arith

  -- The rest of a push, up to its answer.
  pub finished :
      (seq : ℕ) (payload : Bytes)
      → ((steps 2 (committing account seq payload) w).0
          ≡ at (answered (pushed (ok (created, record { seq = pos seq })))))
        × ((steps 2 (committing account seq payload) w).1.db ≡ visible account seq payload w.db)
        × ((steps 2 (committing account seq payload) w).1.schedule ≡ [])
  unfolding steps step publish_nudge
  finished seq payload = (ground arith, ground arith, ground arith)

  -- A publication with no other request in between.
  pub published_alone :
      (body : SnapshotReq)
      → steps 4 (at (arrived account (Request.put_snapshot body))) w ≡ (
        at (answered (published (Api.put_snapshot account body w).0)),
        (Api.put_snapshot account body w).1,
      )
  unfolding steps step Api.put_snapshot
  published_alone body = ground arith

  -- A publication of all that is visible.
  pub accepted :
      (body : SnapshotReq) (payload : Bytes)
      → decode_bounded p body.payload max_snapshot_bytes ≡ ok payload
      → pos 0 ≤ℤ body.covers_seq
      → body.covers_seq ≤ℤ latest account w.db.deltas
      → covered account w.db.snapshots <ℤ body.covers_seq
      → has_account account w.db ≡ true
      → (put : SnapshotPutResp) × ((Api.put_snapshot account body w).0 ≡ ok put)
        × ((Api.put_snapshot account body w).1.schedule ≡ [])
        × ((Api.put_snapshot account body w).1.db.next_seq ≡ w.db.next_seq)
  unfolding Api.put_snapshot upsert_snapshot delete_covered covered
  accepted body payload good low high fresh known =
      elim (Option-cases (snapshot_of account w.db.snapshots)) [
        | inl e ↦ (
          record { purged = count_where (is_covered account body.covers_seq) w.db.deltas },
          ground arith,
          ground arith,
          ground arith,
        )
        | inr (s, e) ↦ (
          record { purged = count_where (is_covered account body.covers_seq) w.db.deltas },
          ground arith,
          ground arith,
          ground arith,
        )
      ]
