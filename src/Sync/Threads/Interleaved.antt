-- ===== src/Sync/Threads/Interleaved.antt =====
-- Theorems on requests of src/sync_api.rs that interleave at their statements.
use realm_guard_server.Prelude.{ℕ, suc, ◌≡◌, refl, inl, inr, Bool-cases, arith, ◌==◌, ℤ, pos, ◌≤ℤ◌}
use realm_guard_server.Platform.{Platform, Bytes, Uuid}
use realm_guard_server.Database.{Database, DeltaRow}
use realm_guard_server.Result.{ok}
use realm_guard_server.World.{World}
use realm_guard_server.Sync.Deltas.{insert_delta}
use realm_guard_server.Sync.Snapshots.{upsert_snapshot, delete_covered, covered}
use realm_guard_server.Sync.Effects.{snapshot_row, published_db}
use realm_guard_server.Sync.Invariant.{IsSound, IsSound-insert_delta, IsSound-put}
use realm_guard_server.Sync.Rows.{covered-le-upsert_snapshot}
use realm_guard_server.Sync.Durability.{IsRetained, IsRetained-insert_delta, IsRetained-published}
use realm_guard_server.Sync.Service.{IsSound-keeping}
use realm_guard_server.Sync.Threads.{
  Pc, idle, arrived, advance, System, Turn, run, arrive, other, Run, here, next, update,
}
use realm_guard_server.Sync.Threads.Tables.{same, inserted, compacted, effect}
use realm_guard_server.Sync.Threads.Ready.{
  IsReady, IsReady-quiet, next_seq-le, IsReady-grown, IsReady-advance,
}

module _ {p : Platform} (w : World p) where
  pub covered-insert_delta :
      (mine : Uuid) (payload : Bytes) (account : Uuid)
      → covered account w.db.snapshots
        ≤ℤ covered account (insert_delta mine payload w.db).1.snapshots
  unfolding insert_delta
  covered-insert_delta mine payload account = ground arith

  pub covered-published :
      (mine : Uuid) (payload : Bytes) (covers : ℤ) (account : Uuid) {n : ℕ}
      → (upsert_snapshot (snapshot_row mine w payload covers) w.db).0 ≡ ok (suc n)
      → pos 0 ≤ℤ covers
      → covered account w.db.snapshots
        ≤ℤ covered account (published_db mine w payload covers).snapshots
  unfolding delete_covered
  covered-published mine payload covers account affected low =
      covered-le-upsert_snapshot (snapshot_row mine w payload covers) w.db affected account low

  IsSound-advance : (pc : Pc) → IsSound w.db → IsReady w.db pc → IsSound (advance pc w).1.db
  IsSound-advance pc v r = elim (effect w pc) [
    | same e ↦ rw e v
    | inserted account payload e ↦ rw e (IsSound-insert_delta account payload w.db v)
    | compacted account payload covers n at_commit affected e ↦
        let (low, high) = r.decided account payload covers at_commit in
        rw e (IsSound-put (snapshot_row account w payload covers) w.db low high v affected)
  ]

  covered-advance :
      (pc : Pc) (account : Uuid)
      → IsReady w.db pc
      → covered account w.db.snapshots ≤ℤ covered account (advance pc w).1.db.snapshots
  covered-advance pc account r = elim (effect w pc) [
    | same e ↦ rw e (omega arith)
    | inserted mine payload e ↦ rw e (covered-insert_delta mine payload account)
    | compacted mine payload covers n at_commit affected e ↦ rw e (
        covered-published mine payload covers account affected
          (r.decided mine payload covers at_commit).0)
  ]

  IsRetained-advance :
      (pc : Pc) (d : DeltaRow)
      → IsReady w.db pc
      → IsRetained d w.db
      → IsRetained d (advance pc w).1.db
  IsRetained-advance pc d r h = elim (effect w pc) [
    | same e ↦ rw e h
    | inserted mine payload e ↦ rw e (IsRetained-insert_delta d mine payload w.db h)
    | compacted mine payload covers n at_commit affected e ↦ rw e (
        IsRetained-published d mine w payload covers (r.decided mine payload covers at_commit).0
          affected h)
  ]

-- The invariant of all requests in flight.
pub record IsSafe {p : Platform} (s : System p) : Type 0 where
  pub sound : IsSound s.world.db
  pub ready : (i : ℕ) → IsReady s.world.db (s.pc i)

IsReady-update :
    (db : Database) (pcs : ℕ → Pc) (i j : ℕ) (pc : Pc)
    → IsReady db pc
    → IsReady db (pcs j)
    → IsReady db (update pcs i pc j)
IsReady-update db pcs i j pc h k = elim (Bool-cases (j == i)) [ inl e ↦ rw e h | inr e ↦ rw e k ]

Turn-IsSafe : {p : Platform} {s t : System p} → Turn s t → IsSafe s → IsSafe t
Turn-IsSafe {p} {s} (run i) h =
    let w = s.world in
    let pc = s.pc i in
    let db = (advance pc w).1.db in
    record {
      sound = IsSound-advance w pc h.sound (h.ready i);
      ready = λ j.
          IsReady-update db s.pc i j (advance pc w).0
            (IsReady-grown w db _ (next_seq-le w pc) (IsReady-advance w pc h.sound (h.ready i)))
            (IsReady-grown w db _ (next_seq-le w pc) (h.ready j));
    }
Turn-IsSafe {p} {s} (arrive i account r free) h = record {
  sound = h.sound;
  ready = λ j.
      IsReady-update s.world.db s.pc i j (arrived account r)
        (IsReady-quiet s.world.db (arrived account r) refl) (h.ready j);
}
Turn-IsSafe {p} {s} (other w) h = record {
  sound = IsSound-keeping s.world w h.sound;
  ready = λ i. record { checked = (h.ready i).checked; decided = (h.ready i).decided };
}

pub Run-IsSafe : {p : Platform} {s t : System p} → Run s t → IsSafe s → IsSafe t
Run-IsSafe here h = h
Run-IsSafe (next r m) h = Turn-IsSafe m (Run-IsSafe r h)

module _ (account : Uuid) where
  covered-Turn :
      {p : Platform} {s t : System p}
      → Turn s t
      → IsSafe s
      → covered account s.world.db.snapshots ≤ℤ covered account t.world.db.snapshots
  covered-Turn {p} {s} (run i) h = covered-advance s.world (s.pc i) account (h.ready i)
  covered-Turn (arrive i mine r free) h = omega arith
  covered-Turn (other w) h = omega arith

  covered-Run :
      {p : Platform} {s t : System p}
      → Run s t
      → IsSafe s
      → covered account s.world.db.snapshots ≤ℤ covered account t.world.db.snapshots
  covered-Run here h = omega arith
  covered-Run (next r m) h = omega (arith, covered-Run r h, covered-Turn m (Run-IsSafe r h))

module _ (d : DeltaRow) where
  Turn-IsRetained :
      {p : Platform} {s t : System p}
      → Turn s t
      → IsSafe s
      → IsRetained d s.world.db
      → IsRetained d t.world.db
  Turn-IsRetained {p} {s} (run i) h k = IsRetained-advance s.world (s.pc i) d (h.ready i) k
  Turn-IsRetained (arrive i mine r free) h k = k
  Turn-IsRetained (other w) h k = k

  Run-IsRetained :
      {p : Platform} {s t : System p}
      → Run s t
      → IsSafe s
      → IsRetained d s.world.db
      → IsRetained d t.world.db
  Run-IsRetained here h k = k
  Run-IsRetained (next r m) h k = Turn-IsRetained m (Run-IsSafe r h) (Run-IsRetained r h k)

-- Any number of requests of any accounts, interleaved at their statements in any order, with any
-- answers of the services: from a well-formed log on and no request in flight, the log and the
-- snapshots stay well-formed, though a publication decides on what it read before others wrote; no
-- snapshot of an account goes back; and no delta of the log is lost but to a snapshot of its account.
pub interleaved :
    {p : Platform} (w : World p) (t : System p)
    → IsSound w.db
    → Run (record { world = w; pc = λ i. idle }) t
    → IsSound t.world.db
      × ((account : Uuid) → covered account w.db.snapshots ≤ℤ covered account t.world.db.snapshots)
      × ((d : DeltaRow) → IsRetained d w.db → IsRetained d t.world.db)
interleaved w t v r =
    let safe : IsSafe (record { world = w; pc = λ i. idle }) = record {
      sound = v;
      ready = λ i. IsReady-quiet w.db idle refl;
    } in
    (
      (Run-IsSafe r safe).sound,
      λ account. covered-Run account r safe,
      λ d k. Run-IsRetained d r safe k,
    )
