-- ===== src/Sync/Ledger.antt =====
-- What src/sync_api.rs promises to one account, with no other account and no table in sight: a
-- ledger, and how the tables and the handlers implement it.
use mathlib.Core.Option
use realm_guard_server.Prelude.{
  ℕ, zero, suc, ◌<◌, ◌≡◌, refl, ap, ◌∙◌, inl, inr, not, Option, none, some, List, [], ◌∷◌, ◌++◌,
  map, filter, take, All, All-imp, arith, ◌==◌, ==_iff, ==_refl, Bool-cases, ℤ, pos, pos_part, ◌≤ℤ◌,
  ◌<ℤ◌, ltb, ltb_ℤ, if◌then◌else◌,
}
use realm_guard_server.Platform.{Platform, Uuid, Bytes}
use realm_guard_server.Database.{Database, DeltaRow, has_account, max_bigint}
use realm_guard_server.Result.{Result, ok, err, StatusCode, gone}
use realm_guard_server.World.{World}
use realm_guard_server.Sync.Deltas.{
  insert_delta, is_of, is_after, seq_payload, select_since, latest,
}
use realm_guard_server.Sync.Snapshots.{
  snapshot_of, upsert_snapshot, is_covered, delete_covered, covered,
}
use realm_guard_server.Sync.Api
use realm_guard_server.Sync.Api.{PullQuery, PullResp, delta_resp, normalize_since, normalize_limit}
use realm_guard_server.Sync.Invariant.{IsSound}
use realm_guard_server.Sync.Rows.{
  covered-lt, snapshot_of-upsert_snapshot, covered-upsert_snapshot, covered-le-upsert_snapshot,
  deltas-upsert_snapshot,
}
use realm_guard_server.Sync.Effects.{
  db-push, db-pull, db-put_snapshot, db-get_snapshot, snapshot_row, published_db, IsPublished,
}
use realm_guard_server.Sync.Service.{Request, handle, Step, request, other}
use realm_guard_server.Sync.Isolation.{handle-HasSame, HasSame}
use realm_guard_server.Sync.Paging.{select_since-of_IsAscending}
use realm_guard_server.Sync.Delivery.{limit-pos}

-- The last snapshot with the seq that it covers (0 of none), and the deltas since, in order.
pub record Ledger : Type 0 where
  pub snapshot : Option Bytes
  pub base : ℤ
  pub entries : List (ℤ × Bytes)

-- The deltas past a cursor, at most `n` of them; none if the snapshot has passed the cursor.
abbrev pub read : ℤ → ℕ → Ledger → Option (List (ℤ × Bytes))
read cursor n l =
    if ltb_ℤ cursor l.base then none else some (take n (filter (λ e. ltb_ℤ cursor e.0) l.entries))

-- What may happen to the ledger of an account: nothing; a new last entry; or a snapshot that covers
-- no less than the one before, with just the entries past it left.
pub data Move (l l' : Ledger) : Type 0 where
  stay : l' ≡ l → Move l l'
  append :
      (seq : ℤ) (payload : Bytes)
      → l.base <ℤ seq
      → All (λ e. e.0 <ℤ seq) l.entries
      → l' ≡ record l { entries = l.entries ++ (seq, payload) ∷ [] }
      → Move l l'
  compact :
      (payload : Bytes) (covers : ℤ)
      → l.base ≤ℤ covers
      → l' ≡ record {
        snapshot = some payload;
        base = covers;
        entries = filter (λ e. ltb_ℤ covers e.0) l.entries;
      }
      → Move l l'

-- The ledger that the tables hold for an account.
abbrev pub view : Uuid → Database → Ledger
view account db = record {
  snapshot = Option.map (λ s. s.payload) (snapshot_of account db.snapshots);
  base = covered account db.snapshots;
  entries = map seq_payload (filter (is_of account) db.deltas);
}

map-take : (n : ℕ) (ds : List DeltaRow) → map seq_payload (take n ds) ≡ take n (map seq_payload ds)
map-take zero ds = refl
map-take (suc n) [] = refl
map-take (suc n) (d ∷ ds) = ap (λ r. seq_payload d ∷ r) (map-take n ds)

module _ (account : Uuid) where
  entries-append :
      (ds : List DeltaRow) (d : DeltaRow)
      → d.account_id ≡ account
      → map seq_payload (filter (is_of account) (ds ++ d ∷ []))
        ≡ map seq_payload (filter (is_of account) ds) ++ seq_payload d ∷ []
  entries-append [] d e = ground (arith, ==_iff d.account_id account)
  entries-append (x ∷ xs) d e = ground (arith, entries-append xs d e)

  entries-compacted :
      (covers : ℤ) (ds : List DeltaRow)
      → map seq_payload
          (filter (is_of account) (filter (λ d. not (is_covered account covers d)) ds))
        ≡ filter (λ e. ltb_ℤ covers e.0) (map seq_payload (filter (is_of account) ds))
  entries-compacted covers [] = refl
  entries-compacted covers (d ∷ ds) = ground (arith, entries-compacted covers ds)

  entries-after :
      (cursor : ℤ) (ds : List DeltaRow)
      → map seq_payload (filter (is_after account cursor) ds)
        ≡ filter (λ e. ltb_ℤ cursor e.0) (map seq_payload (filter (is_of account) ds))
  entries-after cursor [] = refl
  entries-after cursor (d ∷ ds) = ground (arith, entries-after cursor ds)

  entries-below :
      (n : ℕ) (ds : List DeltaRow)
      → All (λ d. d.seq < n) ds
      → All (λ e. e.0 <ℤ pos n) (map seq_payload (filter (is_of account) ds))
  entries-below n [] h = tt
  entries-below n (d ∷ ds) h = elim (Bool-cases (is_of account d)) [
    | inl e ↦ rw e (omega (arith, h.0), entries-below n ds h.1)
    | inr e ↦ rw e (entries-below n ds h.1)
  ]

  Move-insert_delta :
      (payload : Bytes) (db : Database)
      → IsSound db
      → Move (view account db) (view account (insert_delta account payload db).1)
  unfolding insert_delta
  Move-insert_delta payload db v = elim (Bool-cases (ltb max_bigint db.next_seq)) [
    | inl e ↦ rw e (stay refl)
    | inr e ↦ rw e (elim (Bool-cases (has_account account db)) [
      | inr unknown ↦ rw unknown (stay refl)
      | inl known ↦ rw known (
          append (pos db.next_seq) payload (covered-lt db v account)
            (entries-below db.next_seq db.deltas (All-imp _ _ (λ d h. h.1) db.deltas v.drawn))
            (ap
              (λ es. record {
                snapshot = (view account db).snapshot;
                base = (view account db).base;
                entries = es;
              })
              (entries-append db.deltas
                (record { seq = db.next_seq; account_id = account; payload = payload }) refl)))
    ])
  ]

  module _ {p : Platform} (w : World p) where
    view-published :
        (payload : Bytes) (covers : ℤ)
        → IsPublished account w covers payload
        → view account (published_db account w payload covers) ≡ record {
          snapshot = some payload;
          base = covers;
          entries = filter (λ e. ltb_ℤ covers e.0) (view account w.db).entries;
        }
    unfolding delete_covered
    view-published payload covers done =
        let new = snapshot_row account w payload covers in
        let stored = snapshot_of-upsert_snapshot new w.db done.affected in
        let moved : covered account (upsert_snapshot new w.db).1.snapshots ≡ covers =
          rw (covered-upsert_snapshot new w.db done.affected account, ==_refl account) refl in
        rw
          (
            stored,
            moved,
            deltas-upsert_snapshot new w.db done.affected,
            entries-compacted covers w.db.deltas,
          )
          refl

    Move-published :
        (payload : Bytes) (covers : ℤ)
        → IsPublished account w covers payload
        → Move (view account w.db) (view account (published_db account w payload covers))
    Move-published payload covers done =
        let new = snapshot_row account w payload covers in
        let forward = covered-le-upsert_snapshot new w.db done.affected account done.low in
        let moved : covered account (upsert_snapshot new w.db).1.snapshots ≡ covers =
          rw (covered-upsert_snapshot new w.db done.affected account, ==_refl account) refl in
        compact payload covers (rw moved at forward) (view-published payload covers done)

    Move-own :
        (r : Request)
        → IsSound w.db
        → Move (view account w.db) (view account (handle account r w).db)
    Move-own (Request.push body) v = elim (db-push account w body) [
      | inl e ↦ rw e (stay refl)
      | inr (payload, _, e) ↦ rw e (Move-insert_delta payload w.db v)
    ]
    Move-own (Request.pull query) v = stay (ap (view account) (db-pull account w query))
    Move-own (Request.put_snapshot body) v = elim (db-put_snapshot account w body) [
      | inl e ↦ rw e (stay refl)
      | inr (payload, _, done, e) ↦ rw e (Move-published payload body.covers_seq done)
    ]
    Move-own Request.get_snapshot v = stay (ap (view account) (db-get_snapshot account w))

  pub view-HasSame : (a b : Database) → HasSame account a b → view account a ≡ view account b
  unfolding covered
  view-HasSame a b h =
      let same : covered account a.snapshots ≡ covered account b.snapshots =
        ground (arith, h.snapshot) in
      rw (h.deltas, same, h.snapshot) refl

-- The tables implement the ledger of every account: on a well-formed log, each step of the service, by
-- whatever account and however the services answer, is one of the moves of the ledger that the tables
-- hold for an account.
pub Step-Move :
    {p : Platform} {u v : World p} (account : Uuid)
    → Step u v
    → IsSound u.db
    → Move (view account u.db) (view account v.db)
Step-Move account (request mine r w) h = elim (Bool-cases (mine == account)) [
  | inl e ↦ rw (← (==_iff mine account).0 e) (Move-own mine w r h)
  | inr e ↦ stay (
      view-HasSame account _ _
        (handle-HasSame mine account r w (λ k. ground (arith, ==_iff mine account))))
]
Step-Move account (other w w') h = stay refl

-- What a pull answers, from what the ledger has to read.
abbrev pub answer : Platform → ℤ → Option (List (ℤ × Bytes)) → Result StatusCode PullResp
answer p latest none = err gone
answer p latest (some entries) =
    ok (record { deltas = map (delta_resp p) entries; latest = latest })

-- With the services up and on a well-formed log, a pull is answered by reading the ledger of its
-- account at the normalized cursor and limit, with the last seq of the account's deltas; 410 stands
-- for a cursor that the snapshot has passed.
pub pull-read :
    {p : Platform} (account : Uuid) (query : PullQuery) (w : World p)
    → w.schedule ≡ []
    → IsSound w.db
    → (Api.pull account query w).0
      ≡ answer p (latest account w.db.deltas) (
          read
            (normalize_since query.since)
            (pos_part (normalize_limit query.limit))
            (view account w.db))
unfolding Api.pull
pull-read {p} account query w up v =
    let since = normalize_since query.since in
    let limit = normalize_limit query.limit in
    let rows : map seq_payload (select_since account since limit w.db.deltas)
        ≡ take (pos_part limit) (filter (λ e. ltb_ℤ since e.0) (view account w.db).entries) =
      ap (map seq_payload) (select_since-of_IsAscending account since limit w.db.deltas v.ascending)
      ∙ map-take (pos_part limit) _
      ∙ ap (take (pos_part limit)) (entries-after account since w.db.deltas) in
    let (n, positive) = limit-pos query.limit in ground (arith, rows, positive)
