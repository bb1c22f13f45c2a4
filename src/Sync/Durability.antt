-- ===== src/Sync/Durability.antt =====
-- Theorems on what becomes of a delta after `push` of src/sync_api.rs.
use realm_guard_server.Prelude.{
  ℕ, suc, ◌≡◌, refl, ap, ◌⊎◌, inl, inr, not, [], ◌∷◌, ◌++◌, ltb, arith, ==_iff, Bool-cases, ℤ, pos,
  ◌≤ℤ◌,
}
use realm_guard_server.Platform.{Platform, Uuid, Bytes}
use realm_guard_server.Database.{Database, DeltaRow, SnapshotRow, has_account, max_bigint}
use realm_guard_server.Result.{ok, created, Result-cases}
use realm_guard_server.World.{World}
use realm_guard_server.Sync.Deltas.{insert_delta}
use realm_guard_server.Sync.Snapshots.{upsert_snapshot, is_covered, delete_covered, covered}
use realm_guard_server.Sync.Api
use realm_guard_server.Sync.Api.{PushReq, SnapshotReq, PushResp, decode_payload}
use realm_guard_server.Sync.Rows.{
  Has, Has-append_left, Has-append_last, Has-filter, covered-upsert_snapshot,
  covered-le-upsert_snapshot, deltas-upsert_snapshot,
}
use realm_guard_server.Sync.Effects.{
  db-push, db-pull, db-put_snapshot, db-get_snapshot, snapshot_row, published_db,
}
use realm_guard_server.Sync.Service.{Request, handle, request, other, Reach, here, next}

-- The delta is in the log, or the snapshot of its account covers it.
abbrev pub IsRetained : DeltaRow → Database → Type 0
IsRetained d db = Has d db.deltas ⊎ (pos d.seq ≤ℤ covered d.account_id db.snapshots)

module _ (d : DeltaRow) where
  pub IsRetained-insert_delta :
      (account : Uuid) (payload : Bytes) (db : Database)
      → IsRetained d db
      → IsRetained d (insert_delta account payload db).1
  unfolding insert_delta
  IsRetained-insert_delta account payload db (inr c) = inr (ground arith)
  IsRetained-insert_delta account payload db (inl m) =
      elim (Bool-cases (ltb max_bigint db.next_seq)) [
        | inl e ↦ rw e (inl m)
        | inr e ↦ rw e (elim (Bool-cases (has_account account db)) [
          | inl known ↦ rw known (inl (Has-append_left d db.deltas _ m))
          | inr unknown ↦ rw unknown (inl m)
        ])
      ]

  module _ {p : Platform} (account : Uuid) (w : World p) (payload : Bytes) (covers_seq : ℤ)
      (low : pos 0 ≤ℤ covers_seq) {n : ℕ}
      (affected : (upsert_snapshot (snapshot_row account w payload covers_seq) w.db).0
        ≡ ok (suc n)) where
    abbrev new_row : SnapshotRow
    new_row = snapshot_row account w payload covers_seq

    pub IsRetained-published :
        IsRetained d w.db → IsRetained d (published_db account w payload covers_seq)
    unfolding delete_covered
    IsRetained-published (inr c) =
        inr (omega (arith, covered-le-upsert_snapshot new_row w.db affected d.account_id low))
    IsRetained-published (inl m) = elim (Bool-cases (is_covered account covers_seq d)) [
      | inl e ↦ inr (
          rw (covered-upsert_snapshot new_row w.db affected d.account_id)
            (ground (arith, ==_iff account d.account_id, ==_iff d.account_id account)))
      | inr e ↦ inl (
          rw (deltas-upsert_snapshot new_row w.db affected)
            (Has-filter d (λ x. not (is_covered account covers_seq x)) w.db.deltas (ap not e) m))
    ]

  IsRetained-handle :
      {p : Platform} (account : Uuid) (r : Request) (w : World p)
      → IsRetained d w.db
      → IsRetained d (handle account r w).db
  IsRetained-handle account (Request.push body) w h = elim (db-push account w body) [
    | inl e ↦ rw e h
    | inr (payload, _, e) ↦ rw e (IsRetained-insert_delta account payload w.db h)
  ]
  IsRetained-handle account (Request.pull query) w h = rw (db-pull account w query) h
  IsRetained-handle account (Request.put_snapshot body) w h =
      elim (db-put_snapshot account w body) [
        | inl e ↦ rw e h
        | inr (payload, _, done, e) ↦
            rw e (IsRetained-published account w payload body.covers_seq done.low done.affected h)
      ]
  IsRetained-handle account Request.get_snapshot w h = rw (db-get_snapshot account w) h

  Reach-IsRetained :
      {p : Platform} {u v : World p} → Reach u v → IsRetained d u.db → IsRetained d v.db
  Reach-IsRetained here h = h
  Reach-IsRetained (next r (request account q w)) h =
      IsRetained-handle account q w (Reach-IsRetained r h)
  Reach-IsRetained (next r (other w w')) h = Reach-IsRetained r h

module _ {p : Platform} (account : Uuid) (body : PushReq) (w : World p) (resp : PushResp) where
  -- The row that a push writes.
  abbrev pub pushed_row : Bytes → DeltaRow
  pushed_row payload = record { seq = w.db.next_seq; account_id = account; payload = payload }

  pub push-eq-ok :
      (payload : Bytes)
      → decode_payload p body.payload ≡ ok payload
      → (Api.push account body w).0 ≡ ok (created, resp)
      → (pos w.db.next_seq ≡ resp.seq)
        × ((Api.push account body w).1.db.deltas ≡ w.db.deltas ++ pushed_row payload ∷ [])
  unfolding Api.push insert_delta
  push-eq-ok payload good h = (ground arith, ground arith)

  pub push-decodes :
      (Api.push account body w).0 ≡ ok (created, resp)
      → (payload : Bytes) × (decode_payload p body.payload ≡ ok payload)
  unfolding Api.push
  push-decodes h = elim (Result-cases (decode_payload p body.payload)) [
    | inl good ↦ good
    | inr (e, bad) ↦ absurd (ground arith)
  ]

  push-Has :
      (Api.push account body w).0 ≡ ok (created, resp)
      → (d : DeltaRow) × (d.account_id ≡ account)
        × (pos d.seq ≡ resp.seq)
        × (decode_payload p body.payload ≡ ok d.payload)
        × Has d (Api.push account body w).1.db.deltas
  push-Has h =
      let (payload, good) = push-decodes h in
      let (seq, deltas) = push-eq-ok payload good h in
      (
        pushed_row payload,
        refl,
        seq,
        good,
        rw deltas (Has-append_last (pushed_row payload) w.db.deltas),
      )

-- The delta of a push that was answered with 201, under the seq of that answer, is at all later
-- times in the log, or covered by the snapshot of its account: whatever requests any accounts make
-- afterwards, in whatever way Postgres and Redis answer them.
pub push_durable :
    {p : Platform} (account : Uuid) (body : PushReq) (w u : World p) (resp : PushResp)
    → (Api.push account body w).0 ≡ ok (created, resp)
    → Reach (Api.push account body w).1 u
    → (d : DeltaRow) × (d.account_id ≡ account)
      × (pos d.seq ≡ resp.seq)
      × (decode_payload p body.payload ≡ ok d.payload)
      × IsRetained d u.db
push_durable account body w u resp h r =
    let (d, a, s, e, m) = push-Has account body w resp h in
    (d, a, s, e, Reach-IsRetained d r (inl m))
