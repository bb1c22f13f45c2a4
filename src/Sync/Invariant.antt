-- ===== src/Sync/Invariant.antt =====
-- The well-formedness of the log and the snapshots, and the statements of src/deltas.rs and
-- src/snapshots.rs that write them.
use realm_guard_server.Prelude.{
  ℕ, suc, ◌+◌, ◌<◌, ◌≡◌, refl, inl, inr, Bool, not, List, [], ◌∷◌, ◌++◌, arith, ◌==◌, ==_iff,
  Bool-cases, Option-cases, All, All-append, All-filter, All-imp, filter, pos, ◌≤ℤ◌, ◌<ℤ◌, ltb,
  ltb_ℤ,
}
use realm_guard_server.Prelude.Order.{IsAscending, IsAscending-append_last, IsAscending-filter}
use realm_guard_server.Platform.{Uuid, Bytes}
use realm_guard_server.Database.{Database, DeltaRow, SnapshotRow, has_account, max_bigint}
use realm_guard_server.Result.{ok}
use realm_guard_server.Sync.Deltas.{insert_delta}
use realm_guard_server.Sync.Snapshots.{
  snapshot_of, set_snapshot, upsert_snapshot, is_covered, delete_covered,
}

-- A snapshot has compacted the log: no delta of its account at or below `covers_seq` is left.
abbrev pub IsCompacted : SnapshotRow → List DeltaRow → Type 0
IsCompacted s = All (λ d. s.account_id ≡ d.account_id → s.covers_seq <ℤ pos d.seq)

pub record IsSound (db : Database) : Type 0 where
  -- the log is in the order of its seqs, which are all different
  pub ascending : IsAscending (λ d. d.seq) db.deltas
  -- the sequence has given every seq, from 1
  pub drawn : All (λ d. (0 < d.seq) × (d.seq < db.next_seq)) db.deltas
  pub started : 0 < db.next_seq
  -- a snapshot covers no seq that was not given yet
  pub bounded : All (λ s. (pos 0 ≤ℤ s.covers_seq) × (s.covers_seq <ℤ pos db.next_seq)) db.snapshots
  pub compacted : All (λ s. IsCompacted s db.deltas) db.snapshots

All-IsCompacted-append :
    (ss : List SnapshotRow) (ds : List DeltaRow) (d : DeltaRow)
    → All (λ s. IsCompacted s ds) ss
    → All (λ s. s.covers_seq <ℤ pos d.seq) ss
    → All (λ s. IsCompacted s (ds ++ d ∷ [])) ss
All-IsCompacted-append [] ds d h k = tt
All-IsCompacted-append (s ∷ ss) ds d h k =
    (All-append _ ds (d ∷ []) h.0 (λ _. k.0, tt), All-IsCompacted-append ss ds d h.1 k.1)

-- A value of the sequence may be spent with no row for it.
IsSound-skip : (db : Database) → IsSound db → IsSound (record db { next_seq = db.next_seq + 1 })
IsSound-skip db v = record {
  ascending = v.ascending;
  drawn = All-imp _ _ (λ d h. omega arith) db.deltas v.drawn;
  started = omega arith;
  bounded = All-imp _ _ (λ s h. omega arith) db.snapshots v.bounded;
  compacted = v.compacted;
}

IsSound-append :
    (db : Database) (d : DeltaRow)
    → d.seq ≡ db.next_seq
    → IsSound db
    → IsSound (record db { deltas = db.deltas ++ d ∷ []; next_seq = db.next_seq + 1 })
IsSound-append db d e v = record {
  ascending =
      IsAscending-append_last (λ d. d.seq) db.deltas d v.ascending
        (All-imp _ _ (λ x h. omega arith) db.deltas v.drawn);
  drawn =
      All-append _ db.deltas (d ∷ []) (All-imp _ _ (λ d h. omega arith) db.deltas v.drawn)
        (omega (arith, v.started), tt);
  started = omega arith;
  bounded = All-imp _ _ (λ s h. omega arith) db.snapshots v.bounded;
  compacted =
      All-IsCompacted-append db.snapshots db.deltas d v.compacted
        (All-imp _ _ (λ s h. omega arith) db.snapshots v.bounded);
}

pub IsSound-insert_delta :
    (account_id : Uuid) (payload : Bytes) (db : Database)
    → IsSound db
    → IsSound (insert_delta account_id payload db).1
unfolding insert_delta
IsSound-insert_delta account_id payload db v = elim (Bool-cases (ltb max_bigint db.next_seq)) [
  | inl e ↦ rw e v
  | inr e ↦ rw e (elim (Bool-cases (has_account account_id db)) [
    | inl known ↦ rw known (IsSound-append db _ refl v)
    | inr unknown ↦ rw unknown (IsSound-skip db v)
  ])
]

-- The compaction that follows the publication of `new` restores what it broke.
All-IsCompacted-filter :
    (p : DeltaRow → Bool) (ss : List SnapshotRow) (ds : List DeltaRow)
    → All (λ s. IsCompacted s ds) ss
    → All (λ s. IsCompacted s (filter p ds)) ss
All-IsCompacted-filter p ss ds = All-imp _ _ (λ s h. All-filter _ p ds h) ss

IsCompacted-delete :
    (new : SnapshotRow) (ds : List DeltaRow)
    → IsCompacted new (filter (λ d. not (is_covered new.account_id new.covers_seq d)) ds)
IsCompacted-delete new [] = tt
IsCompacted-delete new (d ∷ ds) = elim (Bool-cases (is_covered new.account_id new.covers_seq d)) [
  | inl e ↦ rw e (IsCompacted-delete new ds)
  | inr e ↦
      rw e (λ same. ground (arith, ==_iff d.account_id new.account_id), IsCompacted-delete new ds)
]

All-set_snapshot :
    (P : SnapshotRow → Type 0) (new : SnapshotRow) (ss : List SnapshotRow)
    → P new
    → All P ss
    → All P (set_snapshot new ss)
All-set_snapshot P new [] p h = tt
All-set_snapshot P new (s ∷ ss) p h = elim (Bool-cases (s.account_id == new.account_id)) [
  | inl e ↦ rw e (p, All-set_snapshot P new ss p h.1)
  | inr e ↦ rw e (h.0, All-set_snapshot P new ss p h.1)
]

module _ (new : SnapshotRow) (db : Database) where
  -- What both statements of `Snapshots.put` make of the tables, given the new snapshots.
  abbrev compacted_by : List SnapshotRow → Database
  compacted_by ss = record db {
    snapshots = ss;
    deltas = filter (λ d. not (is_covered new.account_id new.covers_seq d)) db.deltas;
  }

  IsSound-compacted_by :
      (ss : List SnapshotRow)
      → IsSound db
      → All (λ s. (pos 0 ≤ℤ s.covers_seq) × (s.covers_seq <ℤ pos db.next_seq)) ss
      → All (λ s. IsCompacted s (compacted_by ss).deltas) ss
      → IsSound (compacted_by ss)
  IsSound-compacted_by ss v b c = record {
    ascending = IsAscending-filter _ _ db.deltas v.ascending;
    drawn = All-filter _ _ db.deltas v.drawn;
    started = v.started;
    bounded = b;
    compacted = c;
  }

  module _ (low : pos 0 ≤ℤ new.covers_seq) (high : new.covers_seq <ℤ pos db.next_seq)
      (v : IsSound db) where
    published_first : IsSound (compacted_by (db.snapshots ++ new ∷ []))
    published_first =
        IsSound-compacted_by (db.snapshots ++ new ∷ []) v
          (All-append _ db.snapshots (new ∷ []) v.bounded ((low, high), tt))
          (All-append _ db.snapshots (new ∷ [])
            (All-IsCompacted-filter _ db.snapshots db.deltas v.compacted)
            (IsCompacted-delete new db.deltas, tt))

    published_again : IsSound (compacted_by (set_snapshot new db.snapshots))
    published_again =
        IsSound-compacted_by (set_snapshot new db.snapshots) v
          (All-set_snapshot _ new db.snapshots (low, high) v.bounded)
          (All-set_snapshot _ new db.snapshots (IsCompacted-delete new db.deltas)
            (All-IsCompacted-filter _ db.snapshots db.deltas v.compacted))

    -- A publication that covers no more than the log keeps the invariant, once compacted.
    pub IsSound-put :
        {n : ℕ}
        → (upsert_snapshot new db).0 ≡ ok (suc n)
        → IsSound (delete_covered new.account_id new.covers_seq (upsert_snapshot new db).1).1
    unfolding upsert_snapshot delete_covered
    IsSound-put {n} h = elim (Option-cases (snapshot_of new.account_id db.snapshots)) [
      | inl e ↦ elim (Bool-cases (has_account new.account_id db)) [
        | inl known ↦ rw (e, upsert_snapshot, known) published_first
        | inr unknown ↦ ground (arith)
      ]
      | inr (old, e) ↦ elim (Bool-cases (ltb_ℤ new.covers_seq old.covers_seq)) [
        | inl older ↦ ground arith
        | inr newer ↦ rw (e, upsert_snapshot, newer) published_again
      ]
    ]
