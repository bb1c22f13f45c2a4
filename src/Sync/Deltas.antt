-- ===== src/Sync/Deltas.antt =====
-- src/deltas.rs: the append-only log of encrypted deltas, one SQL statement per operation.
use realm_guard_server.Prelude.{
  ℕ, ◌+◌, Bool, ◌&&◌, Option, none, some, List, [], ◌∷◌, ◌++◌, map, ◌==◌, ltb, filter, take, ℤ, pos,
  pos_part, ltb_ℤ, if◌then◌else◌,
}
use realm_guard_server.Prelude.Order.{order_by}
use realm_guard_server.Platform.{Platform, Bytes, Uuid}
use realm_guard_server.Database.{Database, DeltaRow, has_account, max_bigint}
use realm_guard_server.Result.{
  Result, ok, err, Failure, foreign_key_violation, sequence_exhausted, negative_limit,
}
use realm_guard_server.World.{Exec, postgres, pure, ◌>>=◌}

-- INSERT INTO deltas (account_id, payload) VALUES ($1, $2) RETURNING seq. A value of the sequence
-- is spent even when the row is refused.
unfoldable pub insert_delta : Uuid → Bytes → Database → Result Failure ℕ × Database
insert_delta account_id payload db =
    if ltb max_bigint db.next_seq
    then (err sequence_exhausted, db)
    else if has_account account_id db
    then (
      ok db.next_seq,
      record db {
        deltas =
            db.deltas
            ++ record { seq = db.next_seq; account_id = account_id; payload = payload } ∷ [];
        next_seq = db.next_seq + 1;
      },
    )
    else (err foreign_key_violation, record db { next_seq = db.next_seq + 1 })

unfoldable pub append : {p : Platform} → Uuid → Bytes → Exec p Failure ℤ
unfolding postgres
append account_id payload = do seq ← postgres (insert_delta account_id payload); pure (pos seq)

-- WHERE account_id = $1 AND seq > $2
abbrev pub is_after : Uuid → ℤ → DeltaRow → Bool
is_after account_id cursor d = d.account_id == account_id && ltb_ℤ cursor (pos d.seq)

-- SELECT seq, payload FROM deltas WHERE … ORDER BY seq LIMIT $3
unfoldable pub select_since : Uuid → ℤ → ℤ → List DeltaRow → List DeltaRow
unfolding order_by
select_since account_id cursor limit deltas =
    take (pos_part limit) (order_by (λ d. d.seq) (filter (is_after account_id cursor) deltas))

-- the columns that the statement returns
abbrev pub seq_payload : DeltaRow → ℤ × Bytes
seq_payload d = (pos d.seq, d.payload)

unfoldable pub since : {p : Platform} → Uuid → ℤ → ℤ → Exec p Failure (List (ℤ × Bytes))
unfolding postgres
since account_id cursor limit = postgres λ db.
    if ltb_ℤ limit (pos 0)
    then (err negative_limit, db)
    else (ok (map seq_payload (select_since account_id cursor limit db.deltas)), db)

-- max(seq), NULL of no row
abbrev pub max_seq : List DeltaRow → Option ℕ
max_seq [] = none
max_seq (d ∷ ds) = elim (max_seq ds) [
  | none ↦ some d.seq
  | some m ↦ some (if ltb m d.seq then d.seq else m)
]

-- `unwrap_or(0)`
abbrev pub or_zero : Option ℕ → ℤ
or_zero none = pos 0
or_zero (some n) = pos n

abbrev pub is_of : Uuid → DeltaRow → Bool
is_of account_id d = d.account_id == account_id

unfoldable pub latest : Uuid → List DeltaRow → ℤ
latest account_id deltas = or_zero (max_seq (filter (is_of account_id) deltas))

unfoldable pub latest_seq : {p : Platform} → Uuid → Exec p Failure ℤ
unfolding postgres
latest_seq account_id = postgres λ db. (ok (latest account_id db.deltas), db)
