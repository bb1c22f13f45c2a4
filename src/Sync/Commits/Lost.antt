-- ===== src/Sync/Commits/Lost.antt =====
-- Theorems on two pushes of src/sync_api.rs whose commits come in another order than their seqs.
use realm_guard_server.Prelude.{
  ℕ, ◌+◌, ◌≡◌, ◌≤◌, refl, ap, ◌∙◌, true, false, [], arith, ◌==◌, All, pos, All-imp, All-append,
  ◌≤ℤ◌, ◌<ℤ◌,
}
use realm_guard_server.Platform.{Platform, Bytes, Uuid}
use realm_guard_server.Database.{Database, has_account, max_bigint}
use realm_guard_server.Result.{ok, created}
use realm_guard_server.World.{World}
use realm_guard_server.Sync.Api
use realm_guard_server.Sync.Api.{
  PushReq, PushResp, SnapshotReq, SnapshotPutResp, PullQuery, PullResp, decode_payload,
  decode_bounded, max_snapshot_bytes, normalize_since, normalize_limit,
}
use realm_guard_server.Sync.Invariant.{IsSound}
use realm_guard_server.Sync.Publication.{put_snapshot-IsCompaction}
use realm_guard_server.Sync.Rows.{covered-lt}
use realm_guard_server.Sync.Snapshots.{covered}
use realm_guard_server.Sync.Service.{Request, Reach}
use realm_guard_server.Sync.Threads.{Reply, idle, answered, pushed, published}
use realm_guard_server.Sync.Commits.{at, committing, visible, System, Run, arrive, here, next}
use realm_guard_server.Sync.Commits.Solo.{solo, drawn, finished, published_alone, accepted}
use realm_guard_server.Sync.Commits.Past.{le-latest, pull-past_covered, covered-Reach}

abbrev pub numbered : ℕ → Reply
numbered seq = pushed (ok (created, record { seq = pos seq }))

module _ {p : Platform} (account : Uuid) (w : World p) (a b : Bytes) where
  -- Two seqs are drawn, and only the later one is committed.
  record IsLate (u : System p) : Type 0 where
    drew : u.place 0 ≡ committing account w.db.next_seq a
    told : u.place 1 ≡ at (answered (numbered (w.db.next_seq + 1)))
    free : u.place 2 ≡ at idle
    tables :
        u.world.db
        ≡ visible account (w.db.next_seq + 1) b (record w.db { next_seq = w.db.next_seq + 1 + 1 })
    up : u.world.schedule ≡ []

  module _ (up : w.schedule ≡ []) (known : has_account account w.db ≡ true)
      (room : w.db.next_seq + 1 ≤ max_bigint) where
    abbrev once : World p
    once = record w { db = record w.db { next_seq = w.db.next_seq + 1 } }

    abbrev twice : World p
    twice = record w { db = record w.db { next_seq = w.db.next_seq + 1 + 1 } }

    overtaken :
        (one two : PushReq)
        → decode_payload p one.payload ≡ ok a
        → decode_payload p two.payload ≡ ok b
        → (u : System p) × Run (record { world = w; place = λ i. at idle }) u × IsLate u
    overtaken one two good good' =
        let first = drawn account w up one a good (omega arith) known in
        let second = drawn account once up two b good' room known in
        let (r, m, h) = solo 1 0 (next here (arrive 0 account (Request.push one) refl)) refl refl in
        let (s, m', k) =
          solo 1 1 (next m (arrive 1 account (Request.push two) (h.others 1 refl)))
            (h.world ∙ ap (λ x. x.1) first) refl in
        let (t, m'', l) =
          solo 2 1 m' (k.world ∙ ap (λ x. x.1) second) (k.here ∙ ap (λ x. x.0) second) in
        let (answer, tables, up') = finished account twice up (w.db.next_seq + 1) b in
        (
          t,
          m'',
          record {
            drew = l.others 0 refl ∙ k.others 0 refl ∙ h.here ∙ ap (λ x. x.0) first;
            told = l.here ∙ answer;
            free = l.others 2 refl ∙ k.others 2 refl ∙ h.others 2 refl;
            tables = ap (λ x. x.db) l.world ∙ tables;
            up = ap (λ x. x.schedule) l.world ∙ up';
          },
        )

-- What an overtaken push finds in the tables, on a well-formed log.
module _ (account : Uuid) (payload : Bytes) (db : Database) (v : IsSound db) where
  abbrev overtaking : Database
  overtaking =
      visible account (db.next_seq + 1) payload (record db { next_seq = db.next_seq + 1 + 1 })

  unseen : All (λ d. (d.seq == db.next_seq) ≡ false) overtaking.deltas
  unseen =
      All-append _ db.deltas _ (All-imp _ _ (λ d h. ground (arith, h.1)) db.deltas v.drawn)
        (ground arith, tt)

  fresh : covered account overtaking.snapshots <ℤ pos (db.next_seq + 1)
  fresh = omega (arith, covered-lt db v account)

-- A delta can be lost to every device although its push was answered with 201. On a well-formed log
-- with two seqs left, with the services up, for two pushes and a snapshot of one account that all
-- decode: if the first push draws its seq before the second but commits after it, there is a moment
-- at which the second has been answered with 201 and no row in sight has the first's seq. If a
-- snapshot that covers the second's seq is published then, it is accepted, the first push is answered
-- with 201 too, and from then on, whatever requests and answers follow, no pull of the account
-- delivers anything at or below the second's seq.
pub pushed_lost :
    {p : Platform} (account : Uuid) (w : World p) (one two : PushReq) (body : SnapshotReq)
    (a b c : Bytes)
    → w.schedule ≡ []
    → IsSound w.db
    → has_account account w.db ≡ true
    → w.db.next_seq + 1 ≤ max_bigint
    → decode_payload p one.payload ≡ ok a
    → decode_payload p two.payload ≡ ok b
    → decode_bounded p body.payload max_snapshot_bytes ≡ ok c
    → body.covers_seq ≡ pos (w.db.next_seq + 1)
    → (u : System p) × (t : System p) × (put : SnapshotPutResp) × Run
        (record { world = w; place = λ i. at idle })
        u
      × (u.place 1 ≡ at (answered (numbered (w.db.next_seq + 1))))
      × All (λ d. (d.seq == w.db.next_seq) ≡ false) u.world.db.deltas
      × Run u t
      × (t.place 2 ≡ at (answered (published (ok put))))
      × (t.place 0 ≡ at (answered (numbered w.db.next_seq)))
      × ((v : World p) (query : PullQuery) (r : PullResp)
          → Reach t.world v
          → (Api.pull account query v).0 ≡ ok r
          → All (λ d. pos (w.db.next_seq + 1) <ℤ d.seq) r.deltas)
pushed_lost {p} account w one two body a b c up v known room good good' good'' covers =
    let (u, m, late) = overtaken account w a b up known room one two good good' in
    let after = (Api.put_snapshot account body u.world).1 in
    let alone = published_alone account u.world late.up body in
    let (put, answer, up', _) =
      accepted account u.world late.up body c good'' (rw covers (omega arith))
        (rw (late.tables, covers) (le-latest account w.db.deltas _ refl))
        (rw (late.tables, covers) (fresh account b w.db v)) (rw late.tables known) in
    let (payload, _, done) = put_snapshot-IsCompaction account body u.world put answer in
    let (s, m', h) =
      solo 4 2 (next here (arrive 2 account (Request.put_snapshot body) late.free)) refl refl in
    let (t, m'', k) = solo 2 0 m' (h.world ∙ ap (λ x. x.1) alone) (h.others 0 refl ∙ late.drew) in
    let (told, tables, _) = finished account after up' w.db.next_seq a in
    let snapshots : t.world.db.snapshots ≡ after.db.snapshots =
      ap (λ x. x.db.snapshots) k.world ∙ ap (λ x. x.snapshots) tables in
    (
      u,
      t,
      put,
      m,
      late.told,
      rw late.tables (unseen account b w.db v),
      m'',
      k.others 2 refl ∙ h.here ∙ ap (λ x. x.0) alone ∙ ap (λ x. at (answered (published x))) answer,
      k.here ∙ told,
      λ x query r reach pulled.
          let at_least : pos (w.db.next_seq + 1) ≤ℤ covered account x.db.snapshots =
            rw (snapshots, done.covers, covers) at (covered-Reach account reach) in
          All-imp _ _ (λ d k. omega (arith, k, at_least)) r.deltas
            (pull-past_covered account query x r pulled),
    )
