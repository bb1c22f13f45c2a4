-- ===== src/Sync/Isolation.antt =====
-- Theorems on what the handlers of src/sync_api.rs do to the tables of other accounts.
use realm_guard_server.Prelude.{
  ◌≡◌, refl, ap, ◌∙◌, ◌≢◌, inl, inr, not, List, [], ◌∷◌, ◌++◌, filter, arith, ◌==◌, ==_iff,
  Bool-cases, ℤ,
}
use realm_guard_server.Platform.{Platform, Uuid, Bytes}
use realm_guard_server.Database.{Database, DeltaRow, SnapshotRow}
use realm_guard_server.World.{World}
use realm_guard_server.Sync.Deltas.{insert_delta, is_of}
use realm_guard_server.Sync.Snapshots.{
  snapshot_of, set_snapshot, is_covered, upsert_snapshot, delete_covered,
}
use realm_guard_server.Sync.Rows.{deltas-upsert_snapshot}
use realm_guard_server.Sync.Effects.{
  db-push, db-pull, db-put_snapshot, db-get_snapshot, snapshot_row, published_db, IsPublished,
}
use realm_guard_server.Sync.Service.{Request, handle}

-- What an account has in two states of the tables is the same.
pub record HasSame (account : Uuid) (a b : Database) : Type 0 where
  pub deltas : filter (is_of account) a.deltas ≡ filter (is_of account) b.deltas
  pub snapshot : snapshot_of account a.snapshots ≡ snapshot_of account b.snapshots

module _ (mine yours : Uuid) (apart : mine ≢ yours) where
  filter-append_other :
      (ds : List DeltaRow) (d : DeltaRow)
      → d.account_id ≡ mine
      → filter (is_of yours) (ds ++ d ∷ []) ≡ filter (is_of yours) ds
  filter-append_other [] d e = ground (arith, ==_iff d.account_id yours)
  filter-append_other (x ∷ xs) d e = ground (arith, filter-append_other xs d e)

  filter-delete_other :
      (covers_seq : ℤ) (ds : List DeltaRow)
      → filter (is_of yours) (filter (λ d. not (is_covered mine covers_seq d)) ds)
        ≡ filter (is_of yours) ds
  filter-delete_other covers_seq [] = refl
  filter-delete_other covers_seq (d ∷ ds) = elim (Bool-cases (is_covered mine covers_seq d)) [
    | inl e ↦ rw e (
        ground (
          arith,
          filter-delete_other covers_seq ds,
          ==_iff d.account_id yours,
          ==_iff d.account_id mine,
        ))
    | inr e ↦ rw e (ground (arith, filter-delete_other covers_seq ds))
  ]

  find-append_other :
      (new : SnapshotRow) (ss : List SnapshotRow)
      → new.account_id ≡ mine
      → snapshot_of yours (ss ++ new ∷ []) ≡ snapshot_of yours ss
  find-append_other new [] e = ground (arith, ==_iff new.account_id yours)
  find-append_other new (s ∷ ss) e = ground (arith, find-append_other new ss e)

  find-set_other :
      (new : SnapshotRow) (ss : List SnapshotRow)
      → new.account_id ≡ mine
      → snapshot_of yours (set_snapshot new ss) ≡ snapshot_of yours ss
  find-set_other new [] e = refl
  find-set_other new (s ∷ ss) e = elim (Bool-cases (s.account_id == new.account_id)) [
    | inl same ↦ rw same (
        ground (
          arith,
          find-set_other new ss e,
          ==_iff s.account_id yours,
          ==_iff s.account_id new.account_id,
          ==_iff new.account_id yours,
        ))
    | inr differ ↦ rw differ (ground (arith, find-set_other new ss e))
  ]

  insert_delta-HasSame :
      (payload : Bytes) (db : Database) → HasSame yours (insert_delta mine payload db).1 db
  unfolding insert_delta
  insert_delta-HasSame payload db = record {
    deltas = ground (
      arith,
      filter-append_other db.deltas
          (record { seq = db.next_seq; account_id = mine; payload = payload }) refl,
    );
    snapshot = ground arith;
  }

  upsert-HasSame :
      (new : SnapshotRow) (db : Database)
      → new.account_id ≡ mine
      → snapshot_of yours (upsert_snapshot new db).1.snapshots ≡ snapshot_of yours db.snapshots
  unfolding upsert_snapshot
  upsert-HasSame new db e =
      ground (arith, find-append_other new db.snapshots e, find-set_other new db.snapshots e)

  module _ {p : Platform} (w : World p) where
    published-HasSame :
        (payload : Bytes) (covers_seq : ℤ)
        → IsPublished mine w covers_seq payload
        → HasSame yours (published_db mine w payload covers_seq) w.db
    unfolding delete_covered
    published-HasSame payload covers_seq done = record {
      deltas =
          filter-delete_other covers_seq _
          ∙ ap (filter (is_of yours))
              (deltas-upsert_snapshot (snapshot_row mine w payload covers_seq) w.db done.affected);
      snapshot = upsert-HasSame (snapshot_row mine w payload covers_seq) w.db refl;
    }

    same_tables : {db : Database} → db ≡ w.db → HasSame yours db w.db
    same_tables e = rw e (record { deltas = refl; snapshot = refl })

    handle_isolated : (r : Request) → HasSame yours (handle mine r w).db w.db
    handle_isolated (Request.push body) = elim (db-push mine w body) [
      | inl e ↦ same_tables e
      | inr (payload, _, e) ↦ rw e (insert_delta-HasSame payload w.db)
    ]
    handle_isolated (Request.pull query) = same_tables (db-pull mine w query)
    handle_isolated (Request.put_snapshot body) = elim (db-put_snapshot mine w body) [
      | inl e ↦ same_tables e
      | inr (payload, _, done, e) ↦ rw e (published-HasSame payload body.covers_seq done)
    ]
    handle_isolated Request.get_snapshot = same_tables (db-get_snapshot mine w)

-- No request of an account, whatever the services answer to it, changes the deltas or the snapshot
-- that another account has.
pub handle-HasSame :
    {p : Platform} (mine yours : Uuid) (r : Request) (w : World p)
    → mine ≢ yours
    → HasSame yours (handle mine r w).db w.db
handle-HasSame mine yours r w apart = handle_isolated mine yours apart w r
