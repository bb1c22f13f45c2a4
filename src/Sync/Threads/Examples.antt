-- ===== src/Sync/Threads/Examples.antt =====
-- Interleavings of src/sync_api.rs on the sample platform, and the theorems at such runs.
use realm_guard_server.Prelude.{ℕ, ◌≡◌, refl, ◌↔◌, none, some, [], arith, All, pos, ◌≤ℤ◌, ◌<ℤ◌}
use realm_guard_server.Platform.{Uuid}
use realm_guard_server.Platform.Sample.{sample}
use realm_guard_server.Database.{DeltaRow}
use realm_guard_server.Result.{ok, err, gone}
use realm_guard_server.World.{World}
use realm_guard_server.World.Sample.{serving, tables}
use realm_guard_server.Sync.Deltas.{insert_delta, select_since, latest}
use realm_guard_server.Sync.Snapshots.{upsert_snapshot, delete_covered, covered}
use realm_guard_server.Sync.Nudge.{publish_nudge, channel}
use realm_guard_server.Sync.Api
use realm_guard_server.Sync.Api.{
  PullQuery, PullResp, SnapshotReq, SnapshotPutResp, decode_bounded, decode_payload,
  normalize_since, normalize_limit,
}
use realm_guard_server.Sync.Invariant.{IsSound}
use realm_guard_server.Sync.Sample.{tables-IsSound}
use realm_guard_server.Sync.Durability.{IsRetained}
use realm_guard_server.Sync.Service.{Request, handle}
use realm_guard_server.Sync.Threads.{
  idle, arrived, answered, pulled, published, advance, System, Run, here, next, arrive, run, update,
}
use realm_guard_server.Sync.Threads.Alone.{pieces, reply, pieces-handle}
use realm_guard_server.Sync.Threads.Interleaved.{interleaved}
use realm_guard_server.Sync.Threads.Skipped.{pull_skips}

-- Opens the service.
opened : Unit {0}
unfolding sample serving advance Api.put_snapshot Api.pull insert_delta select_since latest
    upsert_snapshot delete_covered covered publish_nudge channel decode_bounded decode_payload
    normalize_since normalize_limit
opened = tt

abbrev full : World sample
full = serving [] tables

full-IsSound : IsSound full.db
unfolding serving
full-IsSound = tables-IsSound

full-up : full.schedule ≡ []
unfolding serving
full-up = refl

abbrev push_aab : Request
push_aab = Request.push (record { payload = "aab" })

abbrev query : PullQuery
query = record { since = some (pos 1); limit = none }

abbrev compacting : SnapshotReq
compacting = record { payload = "abab"; covers_seq = pos 4 }

pieces-handle_test :
    pieces 5 (arrived 1 push_aab) full ≡ (answered (reply 1 push_aab full), handle 1 push_aab full)
pieces-handle_test = pieces-handle 1 push_aab full 5 (omega arith)

abbrev at_rest : System sample
at_rest = record { world = full; pc = λ i. idle }

abbrev arriving : ℕ → Uuid → Request → System sample → System sample
arriving i account r s = record { world = s.world; pc = update s.pc i (arrived account r) }

abbrev running : ℕ → System sample → System sample
running i s = record {
  world = (advance (s.pc i) s.world).1;
  pc = update s.pc i (advance (s.pc i) s.world).0;
}

-- A pull and a publication, each with its first piece done.
abbrev met : System sample
met = running 1 (
    running 0
      (arriving 1 1 (Request.put_snapshot compacting) (arriving 0 1 (Request.pull query) at_rest)))

met-Run : Run at_rest met
met-Run =
    next
      (next
        (next (next here (arrive 0 1 (Request.pull query) refl))
          (arrive 1 1 (Request.put_snapshot compacting) refl))
        (run 0))
      (run 1)

interleaved_example :
    IsSound met.world.db
    × ((account : Uuid)
        → covered account full.db.snapshots ≤ℤ covered account met.world.db.snapshots)
    × ((d : DeltaRow) → IsRetained d full.db → IsRetained d met.world.db)
interleaved_example = interleaved full met full-IsSound met-Run

put_test : (Api.put_snapshot 1 compacting full).0 ≡ ok (record { purged = 2 })
unfolding opened
put_test = refl

near : covered 1 full.db.snapshots ≤ℤ normalize_since query.since
unfolding opened
near = omega arith

pull_skips_example :
    (t : System sample) × (r : PullResp) × Run (record { world = full; pc = λ i. idle }) t
    × (t.pc 1 ≡ answered (published (ok (record { purged = 2 }))))
    × (t.pc 0 ≡ answered (pulled (ok r)))
    × All (λ d. pos 4 <ℤ d.seq) r.deltas
    × (((Api.pull 1 query (Api.put_snapshot 1 compacting full).1).0 ≡ err gone)
        ↔ (normalize_since query.since <ℤ pos 4))
pull_skips_example =
    pull_skips 1 full query compacting (record { purged = 2 }) full-up near put_test
