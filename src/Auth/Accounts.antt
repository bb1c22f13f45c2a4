-- ===== src/Auth/Accounts.antt =====
-- src/accounts.rs: the OPAQUE password files, by username.
use mathlib.Core.Option
use realm_guard_server.Prelude.{
  String, Bool, true, false, ◌||◌, Option, none, some, List, [], ◌∷◌, ◌++◌, str_eq, find?,
  if◌then◌else◌,
}
use realm_guard_server.Platform.{Platform, Bytes, Uuid}
use realm_guard_server.Database.{Database, AccountRow, has_account}
use realm_guard_server.Result.{Result, ok, err, Failure, unique_violation}
use realm_guard_server.World.{Exec, postgres, draw, pure, ◌>>=◌, ◌>>◌}

abbrev pub account_of : String → List AccountRow → Option AccountRow
account_of username = find? (λ a. str_eq a.username username)

abbrev pub is_some {ℓ} : {A : Type ℓ} → Option A → Bool
is_some none = false
is_some (some _) = true

-- INSERT INTO accounts (id, username, password_file): the id and the username are unique.
unfoldable pub insert_row : AccountRow → Database → Result Failure (Unit {0}) × Database
insert_row a db =
    if has_account a.id db || is_some (account_of a.username db.accounts)
    then (err unique_violation, db)
    else (ok tt, record db { accounts = db.accounts ++ a ∷ [] })

module _ {p : Platform} where
  unfoldable pub insert_account : String → Bytes → Exec p Failure Uuid
  unfolding postgres
  insert_account username password_file = do
    n ← draw
    let id = p.new_v4 n
    postgres (insert_row (record { id = id; username = username; password_file = password_file }))
    pure id

  -- SELECT 1 FROM accounts WHERE username = $1
  unfoldable pub username_taken : String → Exec p Failure Bool
  unfolding postgres
  username_taken username = postgres λ db. (ok (is_some (account_of username db.accounts)), db)

  -- SELECT id, password_file FROM accounts WHERE username = $1
  unfoldable pub account_credentials : String → Exec p Failure (Option (Uuid × Bytes))
  unfolding postgres
  account_credentials username =
      postgres
        λ db. (ok (Option.map (λ a. (a.id, a.password_file)) (account_of username db.accounts)), db)
