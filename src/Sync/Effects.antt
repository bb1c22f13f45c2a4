-- ===== src/Sync/Effects.antt =====
-- What each handler of src/sync_api.rs may do to the tables, whatever the services answer.
use realm_guard_server.Prelude.{ℕ, zero, suc, ◌≡◌, ◌∙◌, ◌⊎◌, inl, inr, arith, ℤ, pos, max_ℤ, ◌≤ℤ◌}
use realm_guard_server.Platform.{Platform, Uuid, Bytes}
use realm_guard_server.Database.{Database, SnapshotRow}
use realm_guard_server.Result.{Failure, ok, err, Result-cases}
use realm_guard_server.World.{World, Outcome-cases, first}
use realm_guard_server.Sync.Deltas
use realm_guard_server.Sync.Snapshots
use realm_guard_server.Sync.Deltas.{insert_delta, latest}
use realm_guard_server.Sync.Snapshots.{upsert_snapshot, delete_covered, covered}
use realm_guard_server.Sync.Api.{
  PushReq, PullQuery, SnapshotReq, max_snapshot_bytes, decode_payload, decode_bounded, push, pull,
  put_snapshot, get_snapshot,
}

module _ {p : Platform} (account : Uuid) (w : World p) where
  pub db-pull : (query : PullQuery) → (pull account query w).1.db ≡ w.db
  unfolding pull
  db-pull query = ground arith

  pub db-get_snapshot : (get_snapshot account w).1.db ≡ w.db
  unfolding get_snapshot
  db-get_snapshot = ground arith

  -- A push leaves the tables alone or runs its INSERT.
  pub db-push :
      (body : PushReq)
      → ((push account body w).1.db ≡ w.db)
        ⊎ ((payload : Bytes) × (decode_payload p body.payload ≡ ok payload)
            × ((push account body w).1.db ≡ (insert_delta account payload w.db).1))
  unfolding push
  db-push body = elim (Result-cases (decode_payload p body.payload)) [
    | inr (e, bad) ↦ inl (ground arith)
    | inl (payload, good) ↦ elim (Outcome-cases (first w.schedule)) [
      | inl r ↦ inl (ground arith)
      | inr r ↦ inr (payload, good, ground arith)
    ]
  ]

  abbrev pub snapshot_row : Bytes → ℤ → SnapshotRow
  snapshot_row payload covers_seq = record {
    account_id = account;
    payload = payload;
    covers_seq = covers_seq;
  }

  -- The tables after both statements of a publication.
  abbrev pub published_db : Bytes → ℤ → Database
  published_db payload covers_seq =
      (delete_covered account covers_seq
        (upsert_snapshot (snapshot_row payload covers_seq) w.db).1).1

  module _ (payload : Bytes) (covers : ℤ) where
    committed_or_not :
        (n : ℕ)
        → (upsert_snapshot (snapshot_row payload covers) w.db).0 ≡ ok (suc n)
        → ((Snapshots.put account payload covers w).1.db ≡ w.db)
          ⊎ ((Snapshots.put account payload covers w).1.db ≡ published_db payload covers)
    unfolding Snapshots.put
    committed_or_not n affected = ground arith

    no_rows :
        (upsert_snapshot (snapshot_row payload covers) w.db).0 ≡ ok 0
        → (Snapshots.put account payload covers w).1.db ≡ w.db
    unfolding Snapshots.put
    no_rows h = ground arith

    failed :
        (e : Failure)
        → (upsert_snapshot (snapshot_row payload covers) w.db).0 ≡ err e
        → (Snapshots.put account payload covers w).1.db ≡ w.db
    unfolding Snapshots.put
    failed e h = ground arith

    -- The transaction leaves the tables alone or takes effect as a whole.
    pub db-put :
        ((Snapshots.put account payload covers w).1.db ≡ w.db)
        ⊎ ((n : ℕ) × ((upsert_snapshot (snapshot_row payload covers) w.db).0 ≡ ok (suc n))
            × ((Snapshots.put account payload covers w).1.db ≡ published_db payload covers))
    db-put = elim (Result-cases (upsert_snapshot (snapshot_row payload covers) w.db).0) [
      | inr (e, bad) ↦ inl (failed e bad)
      | inl (zero, none_affected) ↦ inl (no_rows none_affected)
      | inl (suc n, affected) ↦ elim (committed_or_not n affected) [
        | inl same ↦ inl same
        | inr done ↦ inr (n, affected, done)
      ]
    ]

module _ {p : Platform} (account : Uuid) (w : World p) where
  pub record IsPublished (covers_seq : ℤ) (payload : Bytes) : Type 0 where
    pub low : pos 0 ≤ℤ covers_seq
    pub high : covers_seq ≤ℤ max_ℤ (latest account w.db.deltas) (covered account w.db.snapshots)
    pub rows : ℕ
    pub affected :
        (upsert_snapshot (snapshot_row account w payload covers_seq) w.db).0 ≡ ok (suc rows)

  -- The state past both reads of a publication.
  abbrev measured : World p
  measured = (Snapshots.covers_seq account (Deltas.latest_seq account w).1).1

  db-measured : measured.db ≡ w.db
  unfolding Snapshots.covers_seq Deltas.latest_seq
  db-measured = ground arith

  module _ (body : SnapshotReq) (payload : Bytes)
      (good : decode_bounded p body.payload max_snapshot_bytes ≡ ok payload) where
    put_snapshot-bounds :
        ((put_snapshot account body w).1.db ≡ w.db)
        ⊎ ((pos 0 ≤ℤ body.covers_seq)
            × (body.covers_seq
                ≤ℤ max_ℤ (latest account w.db.deltas) (covered account w.db.snapshots))
            × ((put_snapshot account body w).1.db
                ≡ (Snapshots.put account payload body.covers_seq measured).1.db))
    unfolding put_snapshot
    put_snapshot-bounds = ground arith

    put_snapshot-IsPublished :
        ((put_snapshot account body w).1.db ≡ w.db)
        ⊎ (IsPublished body.covers_seq payload
            × ((put_snapshot account body w).1.db ≡ published_db account w payload body.covers_seq))
    unfolding delete_covered
    put_snapshot-IsPublished = elim put_snapshot-bounds [
      | inl same ↦ inl same
      | inr (low, high, put) ↦ elim (db-put account measured payload body.covers_seq) [
        | inl kept ↦ inl (put ∙ kept ∙ db-measured)
        | inr (n, affected, done) ↦ inr (
          record { low = low; high = high; rows = n; affected = rw db-measured at affected },
          rw db-measured at (put ∙ done),
        )
      ]
    ]

  -- A publication leaves the tables alone, or covers no more than the log and publishes its
  -- snapshot and compacts the log together.
  pub db-put_snapshot :
      (body : SnapshotReq)
      → ((put_snapshot account body w).1.db ≡ w.db)
        ⊎ ((payload : Bytes) × (decode_bounded p body.payload max_snapshot_bytes ≡ ok payload)
            × IsPublished body.covers_seq payload
            × ((put_snapshot account body w).1.db ≡ published_db account w payload body.covers_seq))
  unfolding put_snapshot
  db-put_snapshot body = elim (Result-cases (decode_bounded p body.payload max_snapshot_bytes)) [
    | inr (e, bad) ↦ inl (ground arith)
    | inl (payload, good) ↦ elim (put_snapshot-IsPublished body payload good) [
      | inl same ↦ inl same
      | inr done ↦ inr (payload, good, done.0, done.1)
    ]
  ]
