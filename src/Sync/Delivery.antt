-- ===== src/Sync/Delivery.antt =====
-- Theorems on a push and a later pull (src/sync_api.rs).
use realm_guard_server.Prelude.{
  ℕ, suc, ◌-◌, ◌<◌, ◌≡◌, refl, subst, ◌∙◌, ◌⊎◌, inl, inr, true, Option, some, List, [], ◌∷◌, map,
  arith, ==_iff, Bool-cases, Option-cases, ◌<ℤ◌, take, ℤ, pos, pos_part, ◌≤ℤ◌, ltb_ℤ,
}
use realm_guard_server.Prelude.Order.{IsAscending}
use realm_guard_server.Platform.{Platform, Uuid, Bytes}
use realm_guard_server.Database.{DeltaRow, SnapshotRow}
use realm_guard_server.Result.{ok, err, created, gone}
use realm_guard_server.World.{World}
use realm_guard_server.Sync.Deltas.{is_after, seq_payload, latest}
use realm_guard_server.Sync.Snapshots.{covered, snapshot_of}
use realm_guard_server.Sync.Api
use realm_guard_server.Sync.Api.{
  PushReq, PushResp, PullResp, DeltaResp, delta_resp, decode_payload, normalize_since,
  normalize_limit,
}
use realm_guard_server.Sync.Rows.{Has, All-Has}
use realm_guard_server.Sync.Invariant.{IsSound}
use realm_guard_server.Sync.Service
use realm_guard_server.Sync.Service.{Reach, here, next, Step-IsSound, request}
use realm_guard_server.Sync.Durability.{IsRetained, push_durable}
use realm_guard_server.Sync.Paging.{
  after, after-cons, after-skip, select_since-of_IsAscending, page, pull-eq-ok,
}

pub Reach-IsSound : {p : Platform} {u v : World p} → Reach u v → IsSound u.db → IsSound v.db
Reach-IsSound here h = h
Reach-IsSound (next r s) h = Step-IsSound s (Reach-IsSound r h)

-- In a log in order, the row of the next seq is the first one after the cursor.
after-Has :
    (account : Uuid) (cursor : ℕ) (d : DeltaRow) (ds : List DeltaRow)
    → IsAscending (λ x. x.seq) ds
    → Has d ds
    → d.account_id ≡ account
    → d.seq ≡ suc cursor
    → (rest : List DeltaRow) × (after account (pos cursor) ds ≡ d ∷ rest)
after-Has account cursor d [] h m own same = elim m [ ]
after-Has account cursor d (x ∷ xs) h (inl e) own same =
    let chosen : is_after account (pos cursor) d ≡ true =
      ground (arith, ==_iff d.account_id account) in
    (
      after account (pos x.seq) xs,
      rw e (
          after-cons account (pos cursor) x xs
            (subst (λ y. is_after account (pos cursor) y ≡ true) e chosen) h.0),
    )
after-Has account cursor d (x ∷ xs) h (inr m) own same =
    let (rest, e) = after-Has account cursor d xs h.1 m own same in
    let below = All-Has (λ y. x.seq < y.seq) d xs h.0 m in
    (rest, after-skip account (pos cursor) x xs (ground (arith, below)) ∙ e)

pub limit-pos : (limit : Option ℤ) → (n : ℕ) × (normalize_limit limit ≡ pos (suc n))
unfolding normalize_limit
limit-pos limit = (pos_part (normalize_limit limit) - 1, ground arith)

normalize_since-pos : (cursor : ℕ) → normalize_since (some (pos cursor)) ≡ pos cursor
unfolding normalize_since
normalize_since-pos cursor = ground arith

-- With the services up, a pull is answered with the page, or with 410 where a snapshot is past it.
pull-total :
    {p : Platform} (account : Uuid) (query : Api.PullQuery) (w : World p)
    → w.schedule ≡ []
    → (((Api.pull account query w).0 ≡ err gone)
        × (normalize_since query.since <ℤ covered account w.db.snapshots))
      ⊎ ((r : PullResp) × ((Api.pull account query w).0 ≡ ok r))
unfolding Api.pull
pull-total {p} account query w up =
    let (n, size) = limit-pos query.limit in
    elim (Bool-cases (ltb_ℤ (normalize_since query.since) (covered account w.db.snapshots))) [
      | inl passed ↦ inl (ground arith, ground arith)
      | inr kept ↦ inr (
        record {
          deltas =
              page p account (normalize_since query.since) (normalize_limit query.limit)
                w.db.deltas;
          latest = latest account w.db.deltas;
        },
        ground (arith, size),
      )
    ]

-- A snapshot past a cursor.
covered-row :
    {p : Platform} (account : Uuid) (cursor : ℕ) (u : World p)
    → pos cursor <ℤ covered account u.db.snapshots
    → (s : SnapshotRow) × (snapshot_of account u.db.snapshots ≡ some s)
      × (pos (suc cursor) ≤ℤ s.covers_seq)
unfolding covered
covered-row account cursor u h = elim (Option-cases (snapshot_of account u.db.snapshots)) [
  | inl e ↦ absurd (ground arith)
  | inr (s, e) ↦ (s, e, ground arith)
]

-- A pull is refused with 410, and the account has a snapshot that covers the seq after the cursor.
pub record IsCovering {p : Platform} (account : Uuid) (cursor : ℕ) (limit : Option ℤ) (u : World p)
    : Type 0 where
  refused : (Api.pull account (record { since = some (pos cursor); limit = limit }) u).0 ≡ err gone
  row : SnapshotRow
  there : snapshot_of account u.db.snapshots ≡ some row
  covers : pos (suc cursor) ≤ℤ row.covers_seq

module _ {p : Platform} (account : Uuid) (cursor : ℕ) (limit : Option ℤ) (u : World p)
    (d : DeltaRow) where
  -- The page from the cursor right before a delta of the log begins with that delta.
  page-Has :
      IsSound u.db
      → Has d u.db.deltas
      → d.account_id ≡ account
      → d.seq ≡ suc cursor
      → (rest : List DeltaResp) × (page p account (pos cursor) (normalize_limit limit) u.db.deltas
          ≡ delta_resp p (seq_payload d) ∷ rest)
  page-Has v m own same =
      let (n, size) = limit-pos limit in
      let (rest, e) = after-Has account cursor d u.db.deltas v.ascending m own same in
      (
        map (delta_resp p) (map seq_payload (take n rest)),
        rw
            (
              size,
              select_since-of_IsAscending account (pos cursor) (pos (suc n)) u.db.deltas
                  v.ascending,
              e,
            )
            refl,
      )

  -- With the services up, a pull from there is answered with that delta first, or with 410 where a
  -- snapshot covers the delta.
  pull-IsRetained :
      IsSound u.db
      → IsRetained d u.db
      → d.account_id ≡ account
      → d.seq ≡ suc cursor
      → u.schedule ≡ []
      → IsCovering account cursor limit u
        ⊎ ((r : PullResp) × (rest : List DeltaResp) × ((Api.pull account
                (record { since = some (pos cursor); limit = limit })
                u).0
              ≡ ok r)
            × (r.deltas ≡ delta_resp p (seq_payload d) ∷ rest))
  pull-IsRetained v m own same up =
      elim (pull-total account (record { since = some (pos cursor); limit = limit }) u up) [
        | inl (e, past) ↦
            let (s, there, high) = covered-row account cursor u (rw normalize_since-pos at past) in
            inl (record { refused = e; row = s; there = there; covers = high })
        | inr (r, e) ↦
            let (kept, deltas, _) = pull-eq-ok account _ u r e in
            let deltas' = rw normalize_since-pos at deltas in
            elim m [
              | inr passed ↦
                  let low : covered account u.db.snapshots ≤ℤ pos cursor =
                    rw normalize_since-pos at kept in
                  let high : pos d.seq ≤ℤ covered account u.db.snapshots = rw own at passed in
                  absurd (omega (arith, low, high))
              | inl kept_row ↦
                  let (rest, first) = page-Has v kept_row own same in
                  inr (r, rest, e, deltas' ∙ first)
            ]
      ]

-- A delta that was pushed with an answer of 201 is delivered: on a log that was well-formed, after
-- whatever requests of any accounts came in between and however the services answered them, a pull of
-- that account from the cursor right before the seq of that answer, with any limit and with the
-- services up, is answered with that delta first; or with 410, and then the account has a snapshot
-- that covers that seq.
pub pushed_delivered :
    {p : Platform} (account : Uuid) (body : PushReq) (w u : World p) (resp : PushResp) (cursor : ℕ)
    (limit : Option ℤ)
    → IsSound w.db
    → (Api.push account body w).0 ≡ ok (created, resp)
    → Reach (Api.push account body w).1 u
    → resp.seq ≡ pos (suc cursor)
    → u.schedule ≡ []
    → IsCovering account cursor limit u
      ⊎ ((r : PullResp) × (payload : Bytes) × (rest : List DeltaResp) × (decode_payload p
              body.payload
            ≡ ok payload)
          × ((Api.pull account (record { since = some (pos cursor); limit = limit }) u).0 ≡ ok r)
          × (r.deltas ≡ record { seq = resp.seq; payload = p.encode64 payload } ∷ rest))
pushed_delivered {p} account body w u resp cursor limit v accepted r place up =
    let (d, own, seq, good, kept) = push_durable account body w u resp accepted r in
    let pushed = Step-IsSound (request account (Service.Request.push body) w) v in
    elim (pull-IsRetained account cursor limit u d (Reach-IsSound r pushed) kept own
      (ground (arith, seq, place)) up) [
        | inl e ↦ inl e
        | inr (r, rest, e, deltas) ↦ inr (r, d.payload, rest, good, e, rw seq at deltas)
      ]
