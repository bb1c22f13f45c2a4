-- ===== src/Sync/Sizes.antt =====
-- Theorems on the bounds of src/sync_api.rs: MAX_PAYLOAD_BYTES, MAX_SNAPSHOT_BYTES, MAX_LIMIT.
use realm_guard_server.Prelude.{
  ℕ, suc, ◌≤◌, ◌<◌, ◌≡◌, refl, ap, ◌↔◌, inl, inr, String, Option, some, Option-cases, List, [], ◌∷◌,
  map, arith, ◌==◌, Bool-cases, All, All-append, All-filter, All-take, length, length-take, filter,
  ltb, ℤ, pos, pos_part, ◌<ℤ◌, ltb_ℤ,
}
use realm_guard_server.Prelude.Order.{order_by-All}
use realm_guard_server.Platform.{Platform, Uuid, Bytes}
use realm_guard_server.Database.{Database, DeltaRow, SnapshotRow, has_account, max_bigint}
use realm_guard_server.Result.{ok}
use realm_guard_server.World.{World}
use realm_guard_server.Sync.Deltas.{insert_delta, is_after, select_since, seq_payload}
use realm_guard_server.Sync.Snapshots.{snapshot_of, set_snapshot, upsert_snapshot, delete_covered}
use realm_guard_server.Sync.Api
use realm_guard_server.Sync.Api.{
  PullResp, PullQuery, DeltaResp, delta_resp, decode_bounded, decode_payload, normalize_since,
  normalize_limit, max_payload_bytes, max_snapshot_bytes,
}
use realm_guard_server.Sync.Effects.{
  db-push, db-pull, db-put_snapshot, db-get_snapshot, snapshot_row,
}
use realm_guard_server.Sync.Service.{Request, handle, Step, request, other}
use realm_guard_server.Sync.Paging.{pull-eq-ok}

abbrev pub IsSized : ℕ → Bytes → Type 0
IsSized max payload = (0 < length payload) × (length payload ≤ max)

-- A payload is accepted exactly if it is base64 of at least one byte and at most `max` bytes.
pub decode_bounded_iff :
    (p : Platform) (value : String) (max : ℕ) (payload : Bytes)
    → (decode_bounded p value max ≡ ok payload)
      ↔ ((p.decode64 value ≡ some payload) × IsSized max payload)
unfolding decode_bounded
decode_bounded_iff p value max payload =
    (λ h. (ground arith, (ground arith, ground arith)), λ h. ground arith)

decode_payload-IsSized :
    (p : Platform) (value : String) (payload : Bytes)
    → decode_payload p value ≡ ok payload
    → IsSized max_payload_bytes payload
unfolding decode_payload
decode_payload-IsSized p value payload h =
    ((decode_bounded_iff p value max_payload_bytes payload).0 h).1

pub record IsBounded (db : Database) : Type 0 where
  pub deltas : All (λ d. IsSized max_payload_bytes d.payload) db.deltas
  pub snapshots : All (λ s. IsSized max_snapshot_bytes s.payload) db.snapshots

IsBounded-insert_delta :
    (account : Uuid) (payload : Bytes) (db : Database)
    → IsSized max_payload_bytes payload
    → IsBounded db
    → IsBounded (insert_delta account payload db).1
unfolding insert_delta
IsBounded-insert_delta account payload db h v = elim (Bool-cases (ltb max_bigint db.next_seq)) [
  | inl e ↦ rw e v
  | inr e ↦ rw e (elim (Bool-cases (has_account account db)) [
    | inl known ↦
        rw known
          (record { deltas = All-append _ db.deltas _ v.deltas (h, tt); snapshots = v.snapshots })
    | inr unknown ↦ rw unknown (record { deltas = v.deltas; snapshots = v.snapshots })
  ])
]

All-set_snapshot :
    (P : SnapshotRow → Type 0) (new : SnapshotRow) (ss : List SnapshotRow)
    → P new
    → All P ss
    → All P (set_snapshot new ss)
All-set_snapshot P new [] h k = tt
All-set_snapshot P new (s ∷ ss) h k = elim (Bool-cases (s.account_id == new.account_id)) [
  | inl e ↦ rw e (h, All-set_snapshot P new ss h k.1)
  | inr e ↦ rw e (k.0, All-set_snapshot P new ss h k.1)
]

IsBounded-upsert_snapshot :
    (new : SnapshotRow) (db : Database)
    → IsSized max_snapshot_bytes new.payload
    → IsBounded db
    → IsBounded (upsert_snapshot new db).1
unfolding upsert_snapshot
IsBounded-upsert_snapshot new db h v =
    elim (Option-cases (snapshot_of new.account_id db.snapshots)) [
      | inl e ↦ elim (Bool-cases (has_account new.account_id db)) [
        | inl known ↦
            rw (e, upsert_snapshot, known)
              (record {
                deltas = v.deltas;
                snapshots = All-append _ db.snapshots _ v.snapshots (h, tt);
              })
        | inr unknown ↦ rw (e, upsert_snapshot, unknown) v
      ]
      | inr (old, e) ↦ elim (Bool-cases (ltb_ℤ new.covers_seq old.covers_seq)) [
        | inl older ↦ rw (e, upsert_snapshot, older) v
        | inr newer ↦
            rw (e, upsert_snapshot, newer)
              (record {
                deltas = v.deltas;
                snapshots = All-set_snapshot _ new db.snapshots h v.snapshots;
              })
      ]
    ]

IsBounded-delete_covered :
    (account : Uuid) (covers_seq : ℤ) (db : Database)
    → IsBounded db
    → IsBounded (delete_covered account covers_seq db).1
unfolding delete_covered
IsBounded-delete_covered account covers_seq db v = record {
  deltas = All-filter _ _ db.deltas v.deltas;
  snapshots = v.snapshots;
}

IsBounded-handle :
    {p : Platform} (account : Uuid) (r : Request) (w : World p)
    → IsBounded w.db
    → IsBounded (handle account r w).db
IsBounded-handle {p} account (Request.push body) w v = elim (db-push account w body) [
  | inl e ↦ rw e v
  | inr (payload, good, e) ↦ rw e (
      IsBounded-insert_delta account payload w.db
        (decode_payload-IsSized p body.payload payload good) v)
]
IsBounded-handle account (Request.pull query) w v = rw (db-pull account w query) v
IsBounded-handle {p} account (Request.put_snapshot body) w v =
    elim (db-put_snapshot account w body) [
      | inl e ↦ rw e v
      | inr (payload, good, done, e) ↦ rw e (
          IsBounded-delete_covered account body.covers_seq _ (
            IsBounded-upsert_snapshot (snapshot_row account w payload body.covers_seq) w.db
              (((decode_bounded_iff p body.payload max_snapshot_bytes payload).0 good).1) v))
    ]
IsBounded-handle account Request.get_snapshot w v = rw (db-get_snapshot account w) v

-- Every step of the service keeps the bounds on what is stored: each delta has between 1 byte and
-- 1 MiB, each snapshot between 1 byte and 8 MiB.
pub Step-IsBounded : {p : Platform} {u v : World p} → Step u v → IsBounded u.db → IsBounded v.db
Step-IsBounded (request account r w) h = IsBounded-handle account r w h
Step-IsBounded (other w w') h = record { deltas = h.deltas; snapshots = h.snapshots }

normalize_limit-bounds : (limit : Option ℤ) → pos_part (normalize_limit limit) ≤ 1000
unfolding normalize_limit
normalize_limit-bounds limit = ground arith

All-after :
    (account : Uuid) (cursor : ℤ) (ds : List DeltaRow)
    → All (λ d. cursor <ℤ pos d.seq) (filter (is_after account cursor) ds)
All-after account cursor [] = tt
All-after account cursor (d ∷ ds) = elim (Bool-cases (is_after account cursor d)) [
  | inl e ↦ rw e (ground arith, All-after account cursor ds)
  | inr e ↦ rw e (All-after account cursor ds)
]

module _ (p : Platform) where
  length-page : (ds : List DeltaRow) → length (map (delta_resp p) (map seq_payload ds)) ≡ length ds
  length-page [] = refl
  length-page (d ∷ ds) = ap suc (length-page ds)

  pub All-page :
      (cursor : ℤ) (ds : List DeltaRow)
      → All (λ d. cursor <ℤ pos d.seq) ds
      → All (λ d. cursor <ℤ d.seq) (map (delta_resp p) (map seq_payload ds))
  All-page cursor [] h = tt
  All-page cursor (d ∷ ds) h = (h.0, All-page cursor ds h.1)

select_since-bounds :
    (account : Uuid) (cursor limit : ℤ) (ds : List DeltaRow)
    → (length (select_since account cursor limit ds) ≤ pos_part limit)
      × All (λ d. cursor <ℤ pos d.seq) (select_since account cursor limit ds)
unfolding select_since
select_since-bounds account cursor limit ds = (
  length-take _ _,
  All-take _ (pos_part limit) _ (order_by-All _ _ _ (All-after account cursor ds)),
)

-- Whatever the log holds: a pull that succeeds returns at most 1000 deltas, each of them past the
-- cursor of the request.
pub pull_bounded :
    {p : Platform} (account : Uuid) (query : PullQuery) (w : World p) (r : PullResp)
    → (Api.pull account query w).0 ≡ ok r
    → (length r.deltas ≤ 1000) × All (λ d. normalize_since query.since <ℤ d.seq) r.deltas
pull_bounded {p} account query w r h =
    let (_, deltas, _) = pull-eq-ok account query w r h in
    let cursor = normalize_since query.since in
    let limit = normalize_limit query.limit in
    let (few, past) = select_since-bounds account cursor limit w.db.deltas in
    rw deltas (
      omega (
        arith,
        few,
        length-page p (select_since account cursor limit w.db.deltas),
        normalize_limit-bounds query.limit,
      ),
      All-page p cursor (select_since account cursor limit w.db.deltas) past,
    )
