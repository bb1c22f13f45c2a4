-- ===== src/Sync/Publication.antt =====
-- Publishing a snapshot and falling back on it (src/sync_api.rs `put_snapshot`, `get_snapshot`, and
-- the 410 of `pull`).
use realm_guard_server.Prelude.{
  String, ℕ, zero, suc, ◌≡◌, refl, ap, ◌∙◌, ◌↔◌, inl, inr, not, Option, some, Option-cases, [],
  filter, count_where, arith, ==_refl, ℤ, pos, ◌≤ℤ◌, ◌<ℤ◌, max_ℤ,
}
use realm_guard_server.Platform.{Platform, Uuid, Bytes}
use realm_guard_server.Result.{StatusCode, bad_request, ok, err, Result-cases, conflict, gone}
use realm_guard_server.World.{World}
use realm_guard_server.Sync.Deltas.{latest}
use realm_guard_server.Sync.Snapshots.{
  snapshot_of, is_covered, upsert_snapshot, delete_covered, covered,
}
use realm_guard_server.Sync.Api.{
  SnapshotReq, SnapshotPutResp, SnapshotResp, PullQuery, PullResp, max_snapshot_bytes,
  decode_bounded, normalize_since, normalize_limit, pull, put_snapshot, get_snapshot,
}
use realm_guard_server.Sync.Rows.{
  covered-upsert_snapshot, covered-le-upsert_snapshot, deltas-upsert_snapshot,
  snapshot_of-upsert_snapshot,
}
use realm_guard_server.Sync.Paging.{page}
use realm_guard_server.Sync.Effects.{snapshot_row, published_db}

module _ {p : Platform} (account : Uuid) (body : SnapshotReq) (w : World p)
    (r : SnapshotPutResp) where
  -- The tables after a publication that was answered with 200.
  pub record IsCompaction (payload : Bytes) : Type 0 where
    pub stored :
        snapshot_of account (put_snapshot account body w).1.db.snapshots
        ≡ some (snapshot_row account w payload body.covers_seq)
    pub covers : covered account (put_snapshot account body w).1.db.snapshots ≡ body.covers_seq
    pub forward : covered account w.db.snapshots ≤ℤ body.covers_seq
    pub within :
        body.covers_seq ≤ℤ max_ℤ (latest account w.db.deltas) (covered account w.db.snapshots)
    pub remaining :
        (put_snapshot account body w).1.db.deltas
        ≡ filter (λ d. not (is_covered account body.covers_seq d)) w.db.deltas
    pub counted : r.purged ≡ count_where (is_covered account body.covers_seq) w.db.deltas

  put_snapshot-decodes :
      (put_snapshot account body w).0 ≡ ok r
      → (payload : Bytes) × (decode_bounded p body.payload max_snapshot_bytes ≡ ok payload)
  unfolding put_snapshot
  put_snapshot-decodes h = elim (Result-cases (decode_bounded p body.payload max_snapshot_bytes)) [
    | inl good ↦ good
    | inr (e, bad) ↦ absurd (ground arith)
  ]

  committed :
      (payload : Bytes)
      → decode_bounded p body.payload max_snapshot_bytes ≡ ok payload
      → (put_snapshot account body w).0 ≡ ok r
      → (n : ℕ) × ((upsert_snapshot (snapshot_row account w payload body.covers_seq) w.db).0
          ≡ ok (suc n))
        × ((put_snapshot account body w).1.db ≡ published_db account w payload body.covers_seq)
        × (r.purged
            ≡ count_where
                (is_covered account body.covers_seq)
                (upsert_snapshot (snapshot_row account w payload body.covers_seq) w.db).1.deltas)
        × (pos 0 ≤ℤ body.covers_seq)
        × (body.covers_seq ≤ℤ max_ℤ (latest account w.db.deltas) (covered account w.db.snapshots))
  unfolding put_snapshot delete_covered
  committed payload good h =
      elim (Result-cases
        (upsert_snapshot (snapshot_row account w payload body.covers_seq) w.db).0) [
          | inr (e, bad) ↦ absurd (ground arith)
          | inl (zero, none_affected) ↦ absurd (ground arith)
          | inl (suc n, affected) ↦
              (n, affected, ground arith, ground arith, ground arith, ground arith)
        ]

  -- A publication that is answered with 200 stores its payload as the snapshot of its account, at
  -- the seq that the request names, which lies neither below the one in place nor above the log, removes from the log
  -- the deltas of that account up to it and no other, and answers their number.
  pub put_snapshot-IsCompaction :
      (put_snapshot account body w).0 ≡ ok r
      → (payload : Bytes) × (decode_bounded p body.payload max_snapshot_bytes ≡ ok payload)
        × IsCompaction payload
  unfolding delete_covered
  put_snapshot-IsCompaction h =
      let (payload, good) = put_snapshot-decodes h in
      let (n, affected, db, counted, low, within) = committed payload good h in
      let new = snapshot_row account w payload body.covers_seq in
      let moved : covered account (put_snapshot account body w).1.db.snapshots ≡ body.covers_seq =
        rw (db, covered-upsert_snapshot new w.db affected account, ==_refl account) refl in
      (
        payload,
        good,
        record {
          stored = rw db (snapshot_of-upsert_snapshot new w.db affected);
          covers = moved;
          forward = rw (← moved, db) (covered-le-upsert_snapshot new w.db affected account low);
          within = within;
          remaining = rw (db, deltas-upsert_snapshot new w.db affected) refl;
          counted =
              counted
              ∙ ap (count_where (is_covered account body.covers_seq))
                  (deltas-upsert_snapshot new w.db affected);
        },
      )

decode_bounded-eq-err :
    (p : Platform) (value : String) (max : ℕ) (e : StatusCode)
    → decode_bounded p value max ≡ err e
    → e ≡ bad_request
unfolding decode_bounded
decode_bounded-eq-err p value max e h = ground arith

-- With the services up, a publication is refused with 409 exactly when its payload decodes within
-- its bound and its covers_seq is not negative and below the one of the snapshot in place.
pub put_snapshot-conflict_iff :
    {p : Platform} (account : Uuid) (body : SnapshotReq) (w : World p)
    → w.schedule ≡ []
    → ((put_snapshot account body w).0 ≡ err conflict) ↔ (
        (payload : Bytes) × (decode_bounded p body.payload max_snapshot_bytes ≡ ok payload)
        × (pos 0 ≤ℤ body.covers_seq)
        × (body.covers_seq <ℤ covered account w.db.snapshots))
unfolding put_snapshot upsert_snapshot covered
put_snapshot-conflict_iff {p} account body w up =
    elim (Result-cases (decode_bounded p body.payload max_snapshot_bytes)) [
      | inr (e, bad) ↦ (
        λ h. ground (arith, decode_bounded-eq-err p body.payload max_snapshot_bytes e),
        λ h. ground (arith, h.1),
      )
      | inl (payload, good) ↦ elim (Option-cases (snapshot_of account w.db.snapshots)) [
        | inl e ↦ (λ h. ground arith, λ h. ground (arith, h.2, h.3))
        | inr (s, e) ↦
            (λ h. (payload, good, ground arith, ground arith), λ h. ground (arith, h.2, h.3))
      ]
    ]

-- Where the services answer: a pull that is refused with 410 had a cursor below the snapshot of the
-- account; the snapshot is there to be fetched, and a pull from the seq that it covers succeeds.
pub gone_recovers :
    {p : Platform} (account : Uuid) (query : PullQuery) (w : World p)
    → w.schedule ≡ []
    → (pull account query w).0 ≡ err gone
    → (s : SnapshotResp) × ((get_snapshot account w).0 ≡ ok s)
      × (normalize_since query.since <ℤ s.covers_seq)
      × ((limit : Option ℤ)
          → (r : PullResp) × ((pull account
                (record { since = some s.covers_seq; limit = limit })
                (get_snapshot account w).1).0
              ≡ ok r))
unfolding pull get_snapshot covered normalize_since normalize_limit
gone_recovers {p} account query w up h = elim (Option-cases (snapshot_of account w.db.snapshots)) [
  | inl e ↦ absurd (ground arith)
  | inr (s, e) ↦ (
    record { payload = p.encode64 s.payload; covers_seq = s.covers_seq },
    ground arith,
    ground arith,
    λ limit. (
      record {
        deltas = page p account s.covers_seq (normalize_limit limit) w.db.deltas;
        latest = latest account w.db.deltas;
      },
      ground arith,
    ),
  )
]
