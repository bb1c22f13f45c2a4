-- ===== src/Sync/Examples.antt =====
-- Runs of the synchronisation service on the sample platform, and the theorems at such runs.
use realm_guard_server.Prelude.{
  ◌≡◌, refl, true, false, Option, none, some, List, [], ◌∷◌, ℤ, pos, arith, ◌↔◌, ◌⊎◌, ◌≤ℤ◌, ◌<ℤ◌,
  length, ◌≤◌, All, String,
}
use realm_guard_server.Platform.{Bytes}
use realm_guard_server.Platform.Sample.{sample}
use realm_guard_server.Database.{DeltaRow}
use realm_guard_server.Result.{ok, err, created, gone, conflict}
use realm_guard_server.World.{World, served, refused, command}
use realm_guard_server.World.Sample.{serving, tables}
use realm_guard_server.Sync.Invariant.{IsSound}
use realm_guard_server.Sync.Sample.{tables-IsSound}
use realm_guard_server.Sync.Deltas.{insert_delta, select_since, latest}
use realm_guard_server.Sync.Snapshots.{upsert_snapshot, delete_covered, covered}
use realm_guard_server.Sync.Nudge.{publish_nudge, channel}
use realm_guard_server.Sync.Api
use realm_guard_server.Sync.Api.{
  max_snapshot_bytes, SnapshotResp, PushReq, PushResp, PullQuery, PullResp, SnapshotReq,
  SnapshotPutResp, DeltaResp, decode_bounded, decode_payload, normalize_since, normalize_limit,
}
use realm_guard_server.Sync.Effects.{db-put_snapshot, published_db, IsPublished}
use realm_guard_server.Sync.Service
use realm_guard_server.Sync.Service.{
  handle, keeping, Step-IsSound, Reach, here, next, request, other,
}
use realm_guard_server.Sync.Durability.{push_durable, IsRetained}
use realm_guard_server.Sync.Delivery.{IsCovering, pushed_delivered}
use realm_guard_server.Sync.Paging.{pull_pages}
use realm_guard_server.Sync.Sizes.{
  Step-IsBounded, IsBounded, IsSized, pull_bounded, decode_bounded_iff,
}
use realm_guard_server.Sync.Publication.{
  put_snapshot-IsCompaction, IsCompaction, put_snapshot-conflict_iff, gone_recovers,
}
use realm_guard_server.Sync.Ledger.{Move, view, Step-Move, answer, read, pull-read}
use realm_guard_server.Prelude.{pos_part}
use realm_guard_server.Sync.Isolation.{handle-HasSame, HasSame}
use realm_guard_server.Sync.Socket
use realm_guard_server.Sync.Socket.{Event, nudge, closed, other_frame, relay}
use realm_guard_server.Sync.Relaying.{relay-append, handle-gauge}

abbrev half : World sample
half = serving (served ∷ refused ∷ []) tables

abbrev full : World sample
full = serving [] tables

-- Opens the service.
opened : Unit {0}
unfolding sample serving Api.push Api.pull Api.put_snapshot Api.get_snapshot insert_delta
    select_since latest upsert_snapshot delete_covered covered publish_nudge channel decode_bounded
    decode_payload normalize_since normalize_limit
opened = tt

abbrev aab : PushReq
aab = record { payload = "aab" }

abbrev seq_7 : PushResp
seq_7 = record { seq = pos 7 }

-- The server after a push of the first account whose nudge was refused.
abbrev pushed : World sample
pushed = (Api.push 1 aab half).1

push_test : (Api.push 1 aab half).0 ≡ ok (created, seq_7)
unfolding opened
push_test = refl

-- Covers the first two of the three deltas.
abbrev compacting : SnapshotReq
compacting = record { payload = "abab"; covers_seq = pos 4 }

put_test : (Api.put_snapshot 1 compacting full).0 ≡ ok (record { purged = 2 })
unfolding opened
put_test = refl

abbrev compacted : World sample
compacted = (Api.put_snapshot 1 compacting full).1

conflict_test :
    (Api.put_snapshot 1 (record { payload = "b"; covers_seq = pos 2 }) compacted).0 ≡ err conflict
unfolding opened
conflict_test = refl

gone_test : (Api.pull 1 (record { since = none; limit = none }) compacted).0 ≡ err gone
unfolding opened
gone_test = refl

-- What a full page of the first account has, under its two accounts' tables.
pull_test :
    (Api.pull 1 (record { since = some (pos 1); limit = some (pos 1) }) full).0
    ≡ ok (record { deltas = record { seq = pos 4; payload = "aabb" } ∷ []; latest = pos 5 })
unfolding opened
pull_test = refl

half-IsSound : IsSound half.db
unfolding serving
half-IsSound = tables-IsSound

Step-IsSound_example : IsSound pushed.db
Step-IsSound_example = Step-IsSound (request 1 (Service.Request.push aab) half) half-IsSound

-- The push, then a publication of the other account and a pull, with the services up.
abbrev calm : World sample
calm = keeping pushed (serving [] tables)

abbrev bobs : Service.Request
bobs = Service.Request.put_snapshot (record { payload = "b"; covers_seq = pos 2 })

abbrev pull_all : Service.Request
pull_all = Service.Request.pull (record { since = none; limit = none })

abbrev busy : World sample
busy = handle 1 pull_all (handle 2 bobs calm)

busy-Reach : Reach pushed busy
busy-Reach =
    next (next (next here (other pushed (serving [] tables))) (request 2 bobs calm))
      (request 1 pull_all (handle 2 bobs calm))

busy-up : busy.schedule ≡ []
unfolding opened
busy-up = refl

push_durable_example :
    (d : DeltaRow) × (d.account_id ≡ 1)
    × (pos d.seq ≡ pos 7)
    × (decode_payload sample "aab" ≡ ok d.payload)
    × IsRetained d busy.db
push_durable_example = push_durable 1 aab half busy seq_7 push_test busy-Reach

pushed_delivered_example :
    IsCovering 1 6 none busy
    ⊎ ((r : PullResp) × (payload : Bytes) × (rest : List DeltaResp) × (decode_payload sample "aab"
          ≡ ok payload)
        × ((Api.pull 1 (record { since = some (pos 6); limit = none }) busy).0 ≡ ok r)
        × (r.deltas ≡ record { seq = pos 7; payload = sample.encode64 payload } ∷ rest))
pushed_delivered_example =
    pushed_delivered 1 aab half busy seq_7 6 none half-IsSound push_test busy-Reach refl busy-up

db-put_snapshot_example :
    ((Api.put_snapshot 1 compacting full).1.db ≡ tables)
    ⊎ ((payload : Bytes) × (decode_bounded sample "abab" max_snapshot_bytes ≡ ok payload)
        × IsPublished 1 full (pos 4) payload
        × ((Api.put_snapshot 1 compacting full).1.db ≡ published_db 1 full payload (pos 4)))
unfolding serving
db-put_snapshot_example = db-put_snapshot 1 full compacting

put_snapshot-IsCompaction_example :
    (payload : Bytes) × (decode_bounded sample "abab" max_snapshot_bytes ≡ ok payload)
    × IsCompaction 1 compacting full (record { purged = 2 }) payload
put_snapshot-IsCompaction_example =
    put_snapshot-IsCompaction 1 compacting full (record { purged = 2 }) put_test

compacted-up : compacted.schedule ≡ []
unfolding opened
compacted-up = refl

put_snapshot-conflict_iff_example :
    ((Api.put_snapshot 1 (record { payload = "b"; covers_seq = pos 2 }) compacted).0 ≡ err conflict)
    ↔ ((payload : Bytes) × (decode_bounded sample "b" max_snapshot_bytes ≡ ok payload)
        × (pos 0 ≤ℤ pos 2)
        × (pos 2 <ℤ covered 1 compacted.db.snapshots))
put_snapshot-conflict_iff_example =
    put_snapshot-conflict_iff 1 (record { payload = "b"; covers_seq = pos 2 }) compacted
      compacted-up

gone_recovers_example :
    (s : SnapshotResp) × ((Api.get_snapshot 1 compacted).0 ≡ ok s)
    × (normalize_since none <ℤ s.covers_seq)
    × ((limit : Option ℤ)
        → (r : PullResp) × ((Api.pull 1
              (record { since = some s.covers_seq; limit = limit })
              (Api.get_snapshot 1 compacted).1).0
            ≡ ok r))
gone_recovers_example =
    gone_recovers 1 (record { since = none; limit = none }) compacted compacted-up gone_test

abbrev page_of : List DeltaResp → PullResp
page_of deltas = record { deltas = deltas; latest = pos 5 }

abbrev delta_4 : DeltaResp
delta_4 = record { seq = pos 4; payload = "aabb" }

abbrev delta_5 : DeltaResp
delta_5 = record { seq = pos 5; payload = "aaaab" }

first_page :
    (Api.pull 1 (record { since = some (pos 1); limit = some (pos 1) }) full).0
    ≡ ok (page_of (delta_4 ∷ []))
unfolding opened
first_page = refl

second_page :
    (Api.pull 1 (record { since = some (pos 4); limit = some (pos 2) }) full).0
    ≡ ok (page_of (delta_5 ∷ []))
unfolding opened
second_page = refl

both_pages :
    (Api.pull 1 (record { since = some (pos 1); limit = some (pos 3) }) full).0
    ≡ ok (page_of (delta_4 ∷ delta_5 ∷ []))
unfolding opened
both_pages = refl

full-IsSound : IsSound full.db
unfolding serving
full-IsSound = tables-IsSound

pull_pages_example : delta_4 ∷ delta_5 ∷ [] ≡ delta_4 ∷ delta_5 ∷ []
pull_pages_example =
    pull_pages 1 (pos 1) 1 2 full full (page_of (delta_4 ∷ [])) (page_of (delta_5 ∷ []))
      (page_of (delta_4 ∷ delta_5 ∷ [])) full-IsSound refl (omega arith) (omega arith) (omega arith)
      (omega arith) first_page second_page both_pages

handle-HasSame_test : HasSame 2 (handle 1 (Service.Request.put_snapshot compacting) full).db full.db
handle-HasSame_test =
    handle-HasSame 1 2 (Service.Request.put_snapshot compacting) full (omega arith)

tables-IsBounded : IsBounded full.db
unfolding serving
tables-IsBounded = record { deltas = ground arith; snapshots = tt }

Step-IsBounded_example : IsBounded (handle 1 (Service.Request.push aab) full).db
Step-IsBounded_example = Step-IsBounded (request 1 (Service.Request.push aab) full) tables-IsBounded

pull_bounded_example :
    (length (delta_4 ∷ []) ≤ 1000)
    × All (λ d. normalize_since (some (pos 1)) <ℤ d.seq) (delta_4 ∷ [])
pull_bounded_example =
    pull_bounded 1 (record { since = some (pos 1); limit = some (pos 1) }) full
      (page_of (delta_4 ∷ [])) first_page

decode_bounded_iff_test :
    (decode_bounded sample "aab" 1 ≡ ok (2 ∷ []))
    ↔ ((sample.decode64 "aab" ≡ some (2 ∷ [])) × IsSized 1 (2 ∷ []))
decode_bounded_iff_test = decode_bounded_iff sample "aab" 1 (2 ∷ [])

relay-append_example :
    relay (nudge "7" true ∷ other_frame ∷ closed ∷ nudge "8" true ∷ [])
    ≡ record { sent = "7" ∷ []; ended = true }
relay-append_example =
    relay-append (nudge "7" true ∷ other_frame ∷ []) (nudge "8" true ∷ []) closed (refl, tt) tt

abbrev feed : String → List Event
feed _ = nudge "7" true ∷ nudge "8" false ∷ []

feed_ended : (Socket.handle feed 1 full).0.ended ≡ true
unfolding opened Socket.handle Socket.relay command
feed_ended = refl

handle-gauge_example :
    (Socket.handle feed 1 full).1.metrics.ws_connections ≡ full.metrics.ws_connections
handle-gauge_example = handle-gauge feed 1 full feed_ended

Step-Move_example : Move (view 1 half.db) (view 1 pushed.db)
Step-Move_example = Step-Move 1 (request 1 (Service.Request.push aab) half) half-IsSound

full-up : full.schedule ≡ []
unfolding serving
full-up = refl

pull-read_example :
    (Api.pull 1 (record { since = some (pos 1); limit = some (pos 1) }) full).0
    ≡ answer sample (latest 1 full.db.deltas) (
        read
          (normalize_since (some (pos 1)))
          (pos_part (normalize_limit (some (pos 1))))
          (view 1 full.db))
pull-read_example =
    pull-read 1 (record { since = some (pos 1); limit = some (pos 1) }) full full-up full-IsSound
