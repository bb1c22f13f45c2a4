-- ===== src/Sync/Commits/Examples.antt =====
-- A run of src/sync_api.rs with a late commit, and the theorem at this run.
use realm_guard_server.Prelude.{
  ◌≡◌, ◌+◌, ◌≤◌, ◌<ℤ◌, refl, false, true, ◌∷◌, [], arith, All, pos, ◌==◌,
}
use realm_guard_server.Platform.Sample.{sample}
use realm_guard_server.Database.{has_account, max_bigint}
use realm_guard_server.Result.{ok}
use realm_guard_server.World.{World}
use realm_guard_server.World.Sample.{serving, tables}
use realm_guard_server.Sync.Api
use realm_guard_server.Sync.Api.{
  PushReq, PullQuery, PullResp, SnapshotReq, SnapshotPutResp, decode_bounded, decode_payload,
  max_snapshot_bytes,
}
use realm_guard_server.Sync.Invariant.{IsSound}
use realm_guard_server.Sync.Sample.{tables-IsSound}
use realm_guard_server.Sync.Service.{Reach}
use realm_guard_server.Sync.Threads.{idle, answered, published}
use realm_guard_server.Sync.Commits.{System, Run, at}
use realm_guard_server.Sync.Commits.Lost.{numbered, pushed_lost}

abbrev full : World sample
full = serving [] tables

full-IsSound : IsSound full.db
unfolding serving
full-IsSound = tables-IsSound

full-up : full.schedule ≡ []
unfolding serving
full-up = refl

known : has_account 1 full.db ≡ true
unfolding serving
known = refl

room : full.db.next_seq + 1 ≤ max_bigint
unfolding serving
room = omega arith

abbrev pushed_first : PushReq
pushed_first = record { payload = "aab" }

abbrev pushed_second : PushReq
pushed_second = record { payload = "ab" }

abbrev compacting : SnapshotReq
compacting = record { payload = "abab"; covers_seq = pos 8 }

covers : compacting.covers_seq ≡ pos (full.db.next_seq + 1)
unfolding serving
covers = refl

first_decodes : decode_payload sample pushed_first.payload ≡ ok (2 ∷ [])
unfolding sample decode_payload decode_bounded
first_decodes = refl

second_decodes : decode_payload sample pushed_second.payload ≡ ok (1 ∷ [])
unfolding sample decode_payload decode_bounded
second_decodes = refl

snapshot_decodes : decode_bounded sample compacting.payload max_snapshot_bytes ≡ ok (1 ∷ 1 ∷ [])
unfolding sample decode_bounded
snapshot_decodes = refl

pushed_lost_example :
    (u : System sample) × (t : System sample) × (put : SnapshotPutResp) × Run
      (record { world = full; place = λ i. at idle })
      u
    × (u.place 1 ≡ at (answered (numbered (full.db.next_seq + 1))))
    × All (λ d. (d.seq == full.db.next_seq) ≡ false) u.world.db.deltas
    × Run u t
    × (t.place 2 ≡ at (answered (published (ok put))))
    × (t.place 0 ≡ at (answered (numbered full.db.next_seq)))
    × ((v : World sample) (query : PullQuery) (r : PullResp)
        → Reach t.world v
        → (Api.pull 1 query v).0 ≡ ok r
        → All (λ d. pos (full.db.next_seq + 1) <ℤ d.seq) r.deltas)
pushed_lost_example =
    pushed_lost 1 full pushed_first pushed_second compacting (2 ∷ []) (1 ∷ []) (1 ∷ 1 ∷ []) full-up
      full-IsSound known room first_decodes second_decodes snapshot_decodes covers
