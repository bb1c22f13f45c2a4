-- ===== src/Sync/Rows.antt =====
-- Lemmas on the tables of the synchronisation service: membership, the last seq, the snapshot of
-- an account before and after a publication.
use realm_guard_server.Prelude.{
  ℕ, suc, ◌<◌, ◌≡◌, refl, ◌⊎◌, inl, inr, Bool, true, false, none, some, List, [], ◌∷◌, ◌++◌, arith,
  ◌==◌, ==_iff, ==_refl, Bool-cases, Option-cases, All, All-filter, All-imp, filter, find?, pos,
  ◌≤ℤ◌, ◌<ℤ◌, if◌then◌else◌,
}
use realm_guard_server.Platform.{Uuid}
use realm_guard_server.Database.{Database, DeltaRow, SnapshotRow}
use realm_guard_server.Result.{ok}
use realm_guard_server.Sync.Deltas.{max_seq, or_zero, is_of, latest}
use realm_guard_server.Sync.Snapshots.{snapshot_of, set_snapshot, upsert_snapshot, covered}
use realm_guard_server.Sync.Invariant.{IsSound}

module _ {A : Type 0} where
  -- `x` is one of the rows.
  abbrev pub Has : A → List A → Type 0
  Has x [] = ⊥
  Has x (y ∷ ys) = (x ≡ y) ⊎ Has x ys

  pub Has-append_left : (x : A) (xs ys : List A) → Has x xs → Has x (xs ++ ys)
  Has-append_left x [] ys h = elim h [ ]
  Has-append_left x (y ∷ xs) ys (inl e) = inl e
  Has-append_left x (y ∷ xs) ys (inr h) = inr (Has-append_left x xs ys h)

  pub Has-append_last : (x : A) (xs : List A) → Has x (xs ++ x ∷ [])
  Has-append_last x [] = inl refl
  Has-append_last x (y ∷ xs) = inr (Has-append_last x xs)

  pub Has-filter :
      (x : A) (p : A → Bool) (xs : List A) → p x ≡ true → Has x xs → Has x (filter p xs)
  Has-filter x p [] e h = elim h [ ]
  Has-filter x p (y ∷ ys) e (inl same) = rw (← same, e) (inl refl)
  Has-filter x p (y ∷ ys) e (inr h) = elim (Bool-cases (p y)) [
    | inl t ↦ rw t (inr (Has-filter x p ys e h))
    | inr f ↦ rw f (Has-filter x p ys e h)
  ]

  pub All-Has : (P : A → Type 0) (x : A) (xs : List A) → All P xs → Has x xs → P x
  All-Has P x [] h m = elim m [ ]
  All-Has P x (y ∷ ys) h (inl e) = rw e h.0
  All-Has P x (y ∷ ys) h (inr m) = All-Has P x ys h.1 m

  pub find?-All :
      (P : A → Type 0) (p : A → Bool) (xs : List A) (x : A) → All P xs → find? p xs ≡ some x → P x
  find?-All P p [] x h e = cc
  find?-All P p (y ∷ ys) x h e = elim (Bool-cases (p y)) [
    | inl t ↦ let same : y ≡ x = ground arith in rw (← same) h.0
    | inr f ↦ find?-All P p ys x h.1 (rw (f, find?) at e)
  ]

max_seq-lt :
    (n : ℕ) (ds : List DeltaRow) → 0 < n → All (λ d. d.seq < n) ds → or_zero (max_seq ds) <ℤ pos n
max_seq-lt n [] h k = omega arith
max_seq-lt n (d ∷ ds) h k = ground (arith, max_seq-lt n ds h k.1, k.0)

module _ (db : Database) (v : IsSound db) (account : Uuid) where
  -- The high-water mark of an account lies below what the sequence gives next.
  pub latest-lt : latest account db.deltas <ℤ pos db.next_seq
  unfolding latest
  latest-lt =
      max_seq-lt db.next_seq (filter (is_of account) db.deltas) v.started
        (All-filter _ (is_of account) db.deltas (All-imp _ _ (λ d h. h.1) db.deltas v.drawn))

  pub covered-lt : covered account db.snapshots <ℤ pos db.next_seq
  unfolding covered
  covered-lt = elim (Option-cases (snapshot_of account db.snapshots)) [
    | inl e ↦ rw (e, covered) (omega (arith, v.started))
    | inr (s, e) ↦ rw (e, covered) (find?-All _ _ db.snapshots s v.bounded e).1
  ]

-- The snapshot of `other` after the statement that writes the row `new`.
snapshot_of-append :
    (other : Uuid) (new : SnapshotRow) (ss : List SnapshotRow)
    → snapshot_of new.account_id ss ≡ none
    → covered other (ss ++ new ∷ [])
      ≡ (if new.account_id == other then new.covers_seq else covered other ss)
unfolding covered
snapshot_of-append other new [] h = ground arith
snapshot_of-append other new (s ∷ ss) h = ground (
  arith,
  snapshot_of-append other new ss,
  ==_iff s.account_id other,
  ==_iff s.account_id new.account_id,
  ==_iff new.account_id other,
)

module _ (new : SnapshotRow) where
  covered-set_ne :
      (other : Uuid) (ss : List SnapshotRow)
      → (new.account_id == other) ≡ false
      → covered other (set_snapshot new ss) ≡ covered other ss
  unfolding covered
  covered-set_ne other [] h = refl
  covered-set_ne other (s ∷ ss) h = elim (Bool-cases (s.account_id == new.account_id)) [
    | inl e ↦ rw e (
        ground (
          arith,
          covered-set_ne other ss h,
          ==_iff s.account_id other,
          ==_iff s.account_id new.account_id,
        ))
    | inr e ↦ rw e (ground (arith, covered-set_ne other ss h))
  ]

  covered-set_self :
      (old : SnapshotRow) (ss : List SnapshotRow)
      → snapshot_of new.account_id ss ≡ some old
      → covered new.account_id (set_snapshot new ss) ≡ new.covers_seq
  unfolding covered
  covered-set_self old [] h = cc
  covered-set_self old (s ∷ ss) h = elim (Bool-cases (s.account_id == new.account_id)) [
    | inl e ↦ rw e (ground (arith, ==_refl new.account_id))
    | inr e ↦ rw e (ground (arith, covered-set_self old ss))
  ]

  pub covered-set_snapshot :
      (other : Uuid) (old : SnapshotRow) (ss : List SnapshotRow)
      → snapshot_of new.account_id ss ≡ some old
      → covered other (set_snapshot new ss)
        ≡ (if new.account_id == other then new.covers_seq else covered other ss)
  covered-set_snapshot other old ss h = elim (Bool-cases (new.account_id == other)) [
    | inl e ↦ rw (e, ← (==_iff new.account_id other).0 e) (covered-set_self old ss h)
    | inr e ↦ rw e (covered-set_ne other ss e)
  ]

find-append :
    (new : SnapshotRow) (ss : List SnapshotRow)
    → snapshot_of new.account_id ss ≡ none
    → snapshot_of new.account_id (ss ++ new ∷ []) ≡ some new
find-append new [] h = ground (arith, ==_refl new.account_id)
find-append new (s ∷ ss) h = ground (arith, find-append new ss)

find-set_snapshot :
    (new old : SnapshotRow) (ss : List SnapshotRow)
    → snapshot_of new.account_id ss ≡ some old
    → snapshot_of new.account_id (set_snapshot new ss) ≡ some new
find-set_snapshot new old [] h = cc
find-set_snapshot new old (s ∷ ss) h = elim (Bool-cases (s.account_id == new.account_id)) [
  | inl e ↦ rw e (ground (arith, ==_refl new.account_id))
  | inr e ↦ rw e (ground (arith, find-set_snapshot new old ss))
]

module _ (new : SnapshotRow) (db : Database) {n : ℕ}
    (done : (upsert_snapshot new db).0 ≡ ok (suc n)) where
  -- A publication moves the snapshot of its own account, and never backwards.
  pub covered-upsert_snapshot :
      (other : Uuid)
      → covered other (upsert_snapshot new db).1.snapshots
        ≡ (if new.account_id == other then new.covers_seq else covered other db.snapshots)
  unfolding upsert_snapshot
  covered-upsert_snapshot other = elim (Option-cases (snapshot_of new.account_id db.snapshots)) [
    | inl e ↦ ground (arith, snapshot_of-append other new db.snapshots e)
    | inr (old, e) ↦ ground (arith, covered-set_snapshot new other old db.snapshots e)
  ]

  pub snapshot_of-upsert_snapshot :
      snapshot_of new.account_id (upsert_snapshot new db).1.snapshots ≡ some new
  unfolding upsert_snapshot
  snapshot_of-upsert_snapshot = elim (Option-cases (snapshot_of new.account_id db.snapshots)) [
    | inl e ↦ ground (arith, find-append new db.snapshots e)
    | inr (old, e) ↦ ground (arith, find-set_snapshot new old db.snapshots e)
  ]

  covered-le : pos 0 ≤ℤ new.covers_seq → covered new.account_id db.snapshots ≤ℤ new.covers_seq
  unfolding upsert_snapshot covered
  covered-le low = elim (Option-cases (snapshot_of new.account_id db.snapshots)) [
    | inl e ↦ rw (e, covered) (omega arith)
    | inr (old, e) ↦ ground arith
  ]

  pub covered-le-upsert_snapshot :
      (other : Uuid)
      → pos 0 ≤ℤ new.covers_seq
      → covered other db.snapshots ≤ℤ covered other (upsert_snapshot new db).1.snapshots
  covered-le-upsert_snapshot other low =
      rw (covered-upsert_snapshot other) (elim (Bool-cases (new.account_id == other)) [
        | inl e ↦ rw (e, ← (==_iff new.account_id other).0 e) (covered-le low)
        | inr e ↦ rw e (omega arith)
      ])

  pub deltas-upsert_snapshot : (upsert_snapshot new db).1.deltas ≡ db.deltas
  unfolding upsert_snapshot
  deltas-upsert_snapshot = ground arith
