-- ===== src/Sync/Snapshots.antt =====
-- src/snapshots.rs: full-state snapshots, and the compaction of the log in the same transaction.
use mathlib.Core.Option
use realm_guard_server.Prelude.{
  ℕ, Bool, not, ◌&&◌, Option, none, some, List, [], ◌∷◌, ◌++◌, map, ◌==◌, filter, find?,
  count_where, ℤ, pos, ltb_ℤ, if◌then◌else◌,
}
use realm_guard_server.Platform.{Platform, Bytes, Uuid}
use realm_guard_server.Database.{Database, DeltaRow, SnapshotRow, has_account}
use realm_guard_server.Result.{Result, ok, err, Failure, foreign_key_violation, unavailable}
use realm_guard_server.World.{
  World, Exec, served, refused, lost, first, later, postgres, pure, ◌>>=◌, ◌>>◌,
}

pub record SnapshotPut : Type 0 where
  pub purged : ℕ

abbrev pub snapshot_of : Uuid → List SnapshotRow → Option SnapshotRow
snapshot_of account_id = find? (λ s. s.account_id == account_id)

-- SET payload = EXCLUDED.payload, covers_seq = EXCLUDED.covers_seq, on the row of the account
abbrev pub set_snapshot : SnapshotRow → List SnapshotRow → List SnapshotRow
set_snapshot new = map (λ s. if s.account_id == new.account_id then new else s)

-- INSERT INTO snapshots … ON CONFLICT (account_id) DO UPDATE … WHERE snapshots.covers_seq <=
-- EXCLUDED.covers_seq, with the number of rows affected.
unfoldable pub upsert_snapshot : SnapshotRow → Database → Result Failure ℕ × Database
upsert_snapshot new db = elim (snapshot_of new.account_id db.snapshots) [
  | none ↦
      if has_account new.account_id db
      then (ok 1, record db { snapshots = db.snapshots ++ new ∷ [] })
      else (err foreign_key_violation, db)
  | some old ↦
      if ltb_ℤ new.covers_seq old.covers_seq
      then (ok 0, db)
      else (ok 1, record db { snapshots = set_snapshot new db.snapshots })
]

-- WHERE account_id = $1 AND seq <= $2
abbrev pub is_covered : Uuid → ℤ → DeltaRow → Bool
is_covered account_id covers_seq d =
    d.account_id == account_id && not (ltb_ℤ covers_seq (pos d.seq))

-- DELETE FROM deltas WHERE account_id = $1 AND seq <= $2, with the number of rows affected.
unfoldable pub delete_covered : Uuid → ℤ → Database → Result Failure ℕ × Database
delete_covered account_id covers_seq db = (
  ok (count_where (is_covered account_id covers_seq) db.deltas),
  record db { deltas = filter (λ d. not (is_covered account_id covers_seq d)) db.deltas },
)

-- The three calls that bound a transaction. On a rollback, on an error of the body, and on a commit
-- that Postgres did not carry out, the rows are as before; a commit whose answer is lost has
-- taken place.
abbrev boundary : {p : Platform} → Exec p Failure (Unit {0})
boundary = postgres λ db. (ok tt, db)

abbrev restore : {p : Platform} → Database → World p → World p
restore before w = record w { db = before }

commit : {p : Platform} {A : Type 0} → Database → A → Exec p Failure (Option A)
commit before a w = elim (first w.schedule) [
  | served ↦ (ok (some a), record w { schedule = later w.schedule })
  | refused ↦ (err unavailable, record w { db = before; schedule = later w.schedule })
  | lost ↦ (err unavailable, record w { schedule = later w.schedule })
]

abbrev settle :
    {p : Platform} {A : Type 0} → Database → Result Failure (Option A) → Exec p Failure (Option A)
settle before (ok (some a)) w = commit before a w
settle before (ok none) w = (boundary >> pure none) (restore before w)
settle before (err e) w = (err e, restore before w)

-- `let mut tx = db.begin()`, then a body that answers `some` to commit and `none` to roll back.
unfoldable pub transaction :
    {p : Platform} {A : Type 0} → Exec p Failure (Option A) → Exec p Failure (Option A)
unfolding commit postgres
transaction body = boundary >> λ w. let (r, w') = body w in settle w.db r w'

unfoldable pub put : {p : Platform} → Uuid → Bytes → ℤ → Exec p Failure (Option SnapshotPut)
unfolding transaction
put account_id payload covers_seq = transaction do
  updated ← postgres (
      upsert_snapshot
        (record { account_id = account_id; payload = payload; covers_seq = covers_seq }))
  if updated == 0 then pure none else do
    purged ← postgres (delete_covered account_id covers_seq)
    pure (some (record { purged = purged }))

-- SELECT payload, covers_seq FROM snapshots WHERE account_id = $1
unfoldable pub get : {p : Platform} → Uuid → Exec p Failure (Option (Bytes × ℤ))
unfolding postgres
get account_id = postgres λ db.
    (ok (Option.map (λ s. (s.payload, s.covers_seq)) (snapshot_of account_id db.snapshots)), db)

-- `row.map_or(0, |(seq,)| seq)`
unfoldable pub covered : Uuid → List SnapshotRow → ℤ
covered account_id snapshots = elim (snapshot_of account_id snapshots) [
  | none ↦ pos 0
  | some s ↦ s.covers_seq
]

unfoldable pub covers_seq : {p : Platform} → Uuid → Exec p Failure ℤ
unfolding postgres
covers_seq account_id = postgres λ db. (ok (covered account_id db.snapshots), db)
