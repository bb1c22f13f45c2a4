-- ===== src/Sync/Paging.antt =====
-- Theorems on paging by cursor: `pull` of src/sync_api.rs.
use realm_guard_server.Prelude.{
  ℕ, zero, suc, ◌+◌, ◌≤◌, ◌<◌, ◌≡◌, refl, sym, subst, ap, true, false, some, List, [], ◌∷◌, ◌++◌,
  map, arith, Bool-cases, inl, inr, All, All-imp, filter, take, ℤ, pos, pos_part, ◌≤ℤ◌, ◌<ℤ◌,
}
use realm_guard_server.Prelude.Order.{IsAscending, IsAscending-filter, order_by-of_IsAscending}
use realm_guard_server.Platform.{Platform, Uuid}
use realm_guard_server.Database.{DeltaRow}
use realm_guard_server.Result.{ok}
use realm_guard_server.World.{World}
use realm_guard_server.Sync.Deltas.{is_after, select_since, seq_payload, latest}
use realm_guard_server.Sync.Snapshots.{covered}
use realm_guard_server.Sync.Api.{
  PullQuery, PullResp, DeltaResp, delta_resp, normalize_since, normalize_limit, pull,
}
use realm_guard_server.Sync.Invariant.{IsSound}

-- The seq of the last row, or the cursor of a page with no row.
abbrev pub last_row : ℤ → List DeltaRow → ℤ
last_row cursor [] = cursor
last_row cursor (d ∷ ds) = last_row (pos d.seq) ds

take-nil : (m : ℕ) → take {A = DeltaRow} m [] ≡ []
take-nil zero = refl
take-nil (suc m) = refl

module _ (account : Uuid) where
  abbrev pub after : ℤ → List DeltaRow → List DeltaRow
  after cursor = filter (is_after account cursor)

  pub All-after :
      (cursor : ℤ) (ds : List DeltaRow) → All (λ d. cursor <ℤ pos d.seq) (after cursor ds)
  All-after cursor [] = tt
  All-after cursor (d ∷ ds) = elim (Bool-cases (is_after account cursor d)) [
    | inl e ↦ rw e (ground arith, All-after cursor ds)
    | inr e ↦ rw e (All-after cursor ds)
  ]

  le-last_row :
      (cursor : ℤ) (n : ℕ) (ds : List DeltaRow)
      → IsAscending (λ d. d.seq) ds
      → All (λ d. cursor <ℤ pos d.seq) ds
      → cursor ≤ℤ last_row cursor (take n ds)
  le-last_row cursor zero ds h k = omega arith
  le-last_row cursor (suc n) [] h k = omega arith
  le-last_row cursor (suc n) (d ∷ ds) h k =
      omega (arith, le-last_row (pos d.seq) n ds h.1 (All-imp _ _ (λ x l. omega arith) ds h.0), k.0)

  -- Past the row `d`, the rows after the cursor are those after `d`.
  after-shift :
      (cursor : ℤ) (d : DeltaRow) (ds : List DeltaRow)
      → cursor <ℤ pos d.seq
      → All (λ x. d.seq < x.seq) ds
      → after cursor ds ≡ after (pos d.seq) ds
  after-shift cursor d [] h k = refl
  after-shift cursor d (x ∷ xs) h k = ground (arith, after-shift cursor d xs h k.1, k.0)

  after-drop :
      (c c' : ℤ) (d : DeltaRow)
      → c ≤ℤ c'
      → is_after account c d ≡ false
      → is_after account c' d ≡ false
  after-drop c c' d h e = ground arith

  -- The last row of a page is no more after the cursor that it gives.
  page-passed :
      (cursor : ℤ) (n : ℕ) (d : DeltaRow) (ds : List DeltaRow)
      → IsAscending (λ x. x.seq) ds
      → is_after account cursor d ≡ false
      → is_after account (last_row cursor (take n (after cursor ds))) d ≡ false
  page-passed cursor n d ds h e =
      after-drop cursor _ d
        (le-last_row cursor n (after cursor ds) (IsAscending-filter _ _ ds h) (All-after cursor ds))
        e

  pub after-cons :
      (cursor : ℤ) (d : DeltaRow) (ds : List DeltaRow)
      → is_after account cursor d ≡ true
      → All (λ x. d.seq < x.seq) ds
      → after cursor (d ∷ ds) ≡ d ∷ after (pos d.seq) ds
  after-cons cursor d ds e h = rw (e, after-shift cursor d ds (ground arith) h)

  pub after-skip :
      (cursor : ℤ) (d : DeltaRow) (ds : List DeltaRow)
      → is_after account cursor d ≡ false
      → after cursor (d ∷ ds) ≡ after cursor ds
  after-skip cursor d ds e = rw e refl

  not-after_self : (d : DeltaRow) → is_after account (pos d.seq) d ≡ false
  not-after_self d = ground arith

  take-after :
      (cursor : ℤ) (n m k : ℕ) (ds : List DeltaRow)
      → k ≡ n + m
      → IsAscending (λ d. d.seq) ds
      → take n (after cursor ds) ++ take m (after (last_row cursor (take n (after cursor ds))) ds)
        ≡ take k (after cursor ds)
  take-after cursor zero m k ds same h = ap (λ i. take i (after cursor ds)) (omega arith)
  take-after cursor (suc n) m zero ds same h = absurd (omega arith)
  take-after cursor (suc n) m (suc k) [] same h = take-nil m
  take-after cursor (suc n) m (suc k) (d ∷ ds) same h =
      elim (Bool-cases (is_after account cursor d)) [
        | inl e ↦
            subst
              (λ xs.
                take (suc n) xs ++ take m (after (last_row cursor (take (suc n) xs)) (d ∷ ds))
                ≡ take (suc k) xs)
              (sym (after-cons cursor d ds e h.0))
              (rw (page-passed (pos d.seq) n d ds h.1 (not-after_self d))
                (ap (λ r. d ∷ r) (take-after (pos d.seq) n m k ds (omega arith) h.1)))
        | inr e ↦
            subst
              (λ xs.
                take (suc n) xs ++ take m (after (last_row cursor (take (suc n) xs)) (d ∷ ds))
                ≡ take (suc k) xs)
              (sym (after-skip cursor d ds e))
              (rw (page-passed cursor (suc n) d ds h.1 e)
                (take-after cursor (suc n) m (suc k) ds same h.1))
      ]

  -- In a table that is in order a page is a prefix of the rows after the cursor.
  pub select_since-of_IsAscending :
      (cursor limit : ℤ) (ds : List DeltaRow)
      → IsAscending (λ d. d.seq) ds
      → select_since account cursor limit ds ≡ take (pos_part limit) (after cursor ds)
  unfolding select_since
  select_since-of_IsAscending cursor limit ds h =
      ap (take (pos_part limit))
        (order_by-of_IsAscending (λ d. d.seq) (after cursor ds) (IsAscending-filter _ _ ds h))

  -- A page, then the page from its last seq, are together the page of both sizes.
  pub select_since-append :
      (cursor : ℤ) (n m : ℕ) (ds : List DeltaRow)
      → IsAscending (λ d. d.seq) ds
      → select_since account cursor (pos n) ds
          ++ select_since account
              (last_row cursor (select_since account cursor (pos n) ds))
              (pos m)
              ds
        ≡ select_since account cursor (pos (n + m)) ds
  select_since-append cursor n m ds h =
      simp (select_since-of_IsAscending _ _ ds h) (take-after cursor n m (n + m) ds refl h)

-- The rows of a successful pull, as the service answers them.
abbrev pub page : Platform → Uuid → ℤ → ℤ → List DeltaRow → List DeltaResp
page p account cursor limit ds =
    map (delta_resp p) (map seq_payload (select_since account cursor limit ds))

-- Whatever the services answer: a pull that succeeds has a cursor that the snapshot does not pass,
-- and returns the page of the tables as they are.
pub pull-eq-ok :
    {p : Platform} (account : Uuid) (query : PullQuery) (w : World p) (r : PullResp)
    → (pull account query w).0 ≡ ok r
    → (covered account w.db.snapshots ≤ℤ normalize_since query.since)
      × (r.deltas
          ≡ page p account (normalize_since query.since) (normalize_limit query.limit) w.db.deltas)
      × (r.latest ≡ latest account w.db.deltas)
unfolding pull
pull-eq-ok account query w r h = (ground arith, ground arith, ground arith)

-- The cursor that a client takes from a page: the seq of its last delta.
abbrev pub last_seq : ℤ → List DeltaResp → ℤ
last_seq cursor [] = cursor
last_seq cursor (d ∷ ds) = last_seq d.seq ds

normalize_cursor : (cursor : ℤ) → pos 0 ≤ℤ cursor → normalize_since (some cursor) ≡ cursor
unfolding normalize_since
normalize_cursor cursor h = ground arith

normalize_size : (n : ℕ) → 0 < n → n ≤ 1000 → normalize_limit (some (pos n)) ≡ pos n
unfolding normalize_limit
normalize_size n h k = ground arith

module _ (p : Platform) where
  last_seq-page :
      (cursor : ℤ) (ds : List DeltaRow)
      → last_seq cursor (map (delta_resp p) (map seq_payload ds)) ≡ last_row cursor ds
  last_seq-page cursor [] = refl
  last_seq-page cursor (d ∷ ds) = last_seq-page (pos d.seq) ds

  page-append :
      (xs ys : List DeltaRow)
      → map (delta_resp p) (map seq_payload (xs ++ ys))
        ≡ map (delta_resp p) (map seq_payload xs) ++ map (delta_resp p) (map seq_payload ys)
  page-append [] ys = refl
  page-append (x ∷ xs) ys = ap (λ r. delta_resp p (seq_payload x) ∷ r) (page-append xs ys)

  le-last_seq :
      (account : Uuid) (cursor : ℤ) (n : ℕ) (ds : List DeltaRow)
      → IsAscending (λ d. d.seq) ds
      → pos 0 ≤ℤ cursor
      → pos 0 ≤ℤ last_seq cursor (page p account cursor (pos n) ds)
  le-last_seq account cursor n ds h low =
      rw (last_seq-page, select_since-of_IsAscending account cursor (pos n) ds h)
        (omega (
          arith,
          le-last_row account cursor n (after account cursor ds) (IsAscending-filter _ _ ds h)
              (All-after account cursor ds),
        ))

module _ {p : Platform} (account : Uuid) (cursor : ℤ) (n m : ℕ) (w : World p) where
  -- On a well-formed log that does not change, where three pulls succeed: a page of `n` deltas
  -- from a cursor, and then a page of `m` from the seq of the last of them, hold the same deltas
  -- in the same order as one page of `n + m` from that cursor, for positive sizes with `n + m` at
  -- most 1000 and a cursor that is not negative: paging skips no delta and repeats none.
  pub pull_pages :
      (u : World p) (one two both : PullResp)
      → IsSound w.db
      → u.db ≡ w.db
      → pos 0 ≤ℤ cursor
      → 0 < n
      → 0 < m
      → n + m ≤ 1000
      → (pull account (record { since = some cursor; limit = some (pos n) }) w).0 ≡ ok one
      → (pull account
          (record { since = some (last_seq cursor one.deltas); limit = some (pos m) })
          u).0
        ≡ ok two
      → (pull account (record { since = some cursor; limit = some (pos (n + m)) }) w).0 ≡ ok both
      → one.deltas ++ two.deltas ≡ both.deltas
  pull_pages u one two both v same low hn hm fits first second whole =
      let ds = w.db.deltas in
      let one_page : one.deltas ≡ page p account cursor (pos n) ds =
        rw (normalize_cursor cursor low, normalize_size n hn (omega arith)) at
          ((pull-eq-ok account _ w one first).1) in
      let both_page : both.deltas ≡ page p account cursor (pos (n + m)) ds =
        rw (normalize_cursor cursor low, normalize_size (n + m) (omega arith) fits) at
          ((pull-eq-ok account _ w both whole).1) in
      let next_cursor : last_seq cursor one.deltas
          ≡ last_row cursor (select_since account cursor (pos n) ds) =
        rw one_page (last_seq-page p cursor (select_since account cursor (pos n) ds)) in
      let low' : pos 0 ≤ℤ last_seq cursor one.deltas =
        rw one_page (le-last_seq p account cursor n ds v.ascending low) in
      let two_page : two.deltas
          ≡ page p account (last_row cursor (select_since account cursor (pos n) ds)) (pos m) ds =
        rw (normalize_cursor _ low', normalize_size m hm (omega arith), same, next_cursor) at
          ((pull-eq-ok account _ u two second).1) in
      rw (
        one_page,
        two_page,
        both_page,
        ← page-append p,
        select_since-append account cursor n m ds v.ascending,
      )
