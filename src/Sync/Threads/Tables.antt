-- ===== src/Sync/Threads/Tables.antt =====
-- What one piece of a handler of src/sync_api.rs may do to the tables, whatever the services answer.
use realm_guard_server.Prelude.{ℕ, suc, ◌≡◌, refl, ap, ◌∙◌, inl, inr, List, arith, ℤ}
use realm_guard_server.Platform.{Platform, Bytes, Uuid}
use realm_guard_server.Database.{Database}
use realm_guard_server.Result.{ok, Result-cases}
use realm_guard_server.World.{World, Outcome-cases, first}
use realm_guard_server.Sync.Deltas
use realm_guard_server.Sync.Deltas.{insert_delta, latest}
use realm_guard_server.Sync.Snapshots
use realm_guard_server.Sync.Snapshots.{upsert_snapshot, delete_covered, covered}
use realm_guard_server.Sync.Nudge.{publish_nudge}
use realm_guard_server.Sync.Api
use realm_guard_server.Sync.Api.{decode_payload, decode_bounded, max_snapshot_bytes}
use realm_guard_server.Sync.Effects.{snapshot_row, published_db, db-get_snapshot, db-put}
use realm_guard_server.Sync.Service.{Request}
use realm_guard_server.Sync.Threads.{
  Reply, Pc, idle, arrived, nudging, reading, closing, checking, publishing, answered, advance,
}

-- What a piece does to the tables: nothing, an INSERT, or a publication that was decided on before.
pub data Effect {p : Platform} (pc : Pc) (w : World p) (db : Database) : Type 0 where
  same : db ≡ w.db → Effect pc w db
  inserted :
      (account : Uuid) (payload : Bytes)
      → db ≡ (insert_delta account payload w.db).1
      → Effect pc w db
  compacted :
      (account : Uuid) (payload : Bytes) (covers : ℤ) (n : ℕ)
      → pc ≡ publishing account payload covers
      → (upsert_snapshot (snapshot_row account w payload covers) w.db).0 ≡ ok (suc n)
      → db ≡ published_db account w payload covers
      → Effect pc w db

module _ {p : Platform} (w : World p) where
  effect-push :
      (account : Uuid) (body : Api.PushReq)
      → Effect
          (arrived account (Request.push body))
          w
          (advance (arrived account (Request.push body)) w).1.db
  unfolding advance Deltas.append
  effect-push account body = elim (Result-cases (decode_payload p body.payload)) [
    | inr (e, bad) ↦ same (ground arith)
    | inl (payload, good) ↦ elim (Outcome-cases (first w.schedule)) [
      | inl r ↦ same (ground arith)
      | inr r ↦ inserted account payload (ground arith)
    ]
  ]

  db-publishing :
      (account : Uuid) (payload : Bytes) (covers : ℤ)
      → (advance (publishing account payload covers) w).1.db
        ≡ (Snapshots.put account payload covers w).1.db
  unfolding advance
  db-publishing account payload covers = ground arith

  -- Pieces that only read.
  db-nudging : (account : Uuid) (seq : ℤ) → (advance (nudging account seq) w).1.db ≡ w.db
  unfolding advance publish_nudge
  db-nudging account seq = ground arith

  db-pull :
      (account : Uuid) (query : Api.PullQuery)
      → (advance (arrived account (Request.pull query)) w).1.db ≡ w.db
  unfolding advance Snapshots.covers_seq
  db-pull account query = ground arith

  db-reading :
      (account : Uuid) (since limit : ℤ) → (advance (reading account since limit) w).1.db ≡ w.db
  unfolding advance Deltas.since
  db-reading account since limit = ground arith

  db-closing :
      (account : Uuid) (rows : List (ℤ × Bytes)) → (advance (closing account rows) w).1.db ≡ w.db
  unfolding advance Deltas.latest_seq
  db-closing account rows = ground arith

  db-arrived_put :
      (account : Uuid) (body : Api.SnapshotReq)
      → (advance (arrived account (Request.put_snapshot body)) w).1.db ≡ w.db
  unfolding advance Deltas.latest_seq
  db-arrived_put account body = ground arith

  db-checking :
      (account : Uuid) (payload : Bytes) (covers latest_delta : ℤ)
      → (advance (checking account payload covers latest_delta) w).1.db ≡ w.db
  unfolding advance Snapshots.covers_seq
  db-checking account payload covers latest_delta = ground arith

  db-arrived_get : (account : Uuid) → (advance (arrived account Request.get_snapshot) w).1.db ≡ w.db
  unfolding advance
  db-arrived_get account = db-get_snapshot account w

  effect-publishing :
      (account : Uuid) (payload : Bytes) (covers : ℤ)
      → Effect
          (publishing account payload covers)
          w
          (advance (publishing account payload covers) w).1.db
  effect-publishing account payload covers = elim (db-put account w payload covers) [
    | inl e ↦ same (db-publishing account payload covers ∙ e)
    | inr (n, affected, e) ↦
        compacted account payload covers n refl affected (db-publishing account payload covers ∙ e)
  ]

  advance-idle : advance idle w ≡ (idle, w)
  unfolding advance
  advance-idle = refl

  advance-answered : (r : Reply) → advance (answered r) w ≡ (answered r, w)
  unfolding advance
  advance-answered r = refl

  pub effect : (pc : Pc) → Effect pc w (advance pc w).1.db
  effect (arrived account (Request.push body)) = effect-push account body
  effect (arrived account (Request.pull query)) = same (db-pull account query)
  effect (arrived account (Request.put_snapshot body)) = same (db-arrived_put account body)
  effect (arrived account Request.get_snapshot) = same (db-arrived_get account)
  effect (nudging account seq) = same (db-nudging account seq)
  effect (reading account since limit) = same (db-reading account since limit)
  effect (closing account rows) = same (db-closing account rows)
  effect (checking account payload covers latest_delta) =
      same (db-checking account payload covers latest_delta)
  effect (publishing account payload covers) = effect-publishing account payload covers
  effect idle = same (ap (λ x. x.1.db) advance-idle)
  effect (answered r) = same (ap (λ x. x.1.db) (advance-answered r))
