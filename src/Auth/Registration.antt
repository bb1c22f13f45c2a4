-- ===== src/Auth/Registration.antt =====
-- Theorems on `register_finish` of src/auth_api.rs and the accounts that it inserts.
use realm_guard_server.Prelude.{
  ◌≡◌, sym, subst, ◌≢◌, inl, inr, none, some, Option-cases, List, [], ◌∷◌, ◌++◌, arith, str_eq_refl,
}
use realm_guard_server.Platform.{Platform, Bytes}
use realm_guard_server.Database.{Database, AccountRow}
use realm_guard_server.Result.{ok, Result-cases, created}
use realm_guard_server.World.{World}
use realm_guard_server.Auth.Accounts.{account_of, insert_row}
use realm_guard_server.Auth.Api.{RegisterFinishReq, decode, register_finish}

append-account_of :
    (a : AccountRow) (rows : List AccountRow)
    → account_of a.username rows ≡ none
    → account_of a.username (rows ++ a ∷ []) ≡ some a
append-account_of a [] h = ground (arith, str_eq_refl a.username)
append-account_of a (b ∷ bs) h = ground (arith, append-account_of a bs)

-- The row of a username after its insert was carried out.
insert_row-account_of :
    (a : AccountRow) (db : Database)
    → (insert_row a db).0 ≡ ok tt
    → account_of a.username (insert_row a db).1.accounts ≡ some a
unfolding insert_row
insert_row-account_of a db h = ground (arith, append-account_of a db.accounts)

-- A registration for a username that has a row neither succeeds nor writes.
pub register_finish-taken :
    {p : Platform} (body : RegisterFinishReq) (w : World p) (old : AccountRow)
    → account_of body.username w.db.accounts ≡ some old
    → ((register_finish body w).0 ≢ ok created)
      × ((register_finish body w).1.db.accounts ≡ w.db.accounts)
unfolding register_finish insert_row
register_finish-taken body w old h = (λ e. ground arith, ground arith)

module _ {p : Platform} (body : RegisterFinishReq) (w : World p) where
  pub registered :
      (register_finish body w).0 ≡ ok created
      → (upload : Bytes) × (file : Bytes) × (decode p body.upload ≡ ok upload)
        × (p.server_register_finish upload ≡ some file)
        × (account_of body.username (register_finish body w).1.db.accounts
            ≡ some
                (record { id = p.new_v4 w.draws; username = body.username; password_file = file }))
  unfolding register_finish
  registered h = elim (Result-cases (decode p body.upload)) [
    | inr (e, bad) ↦ absurd (ground arith)
    | inl (upload, good) ↦ elim (Option-cases (p.server_register_finish upload)) [
      | inl bad ↦ absurd (ground arith)
      | inr (file, finished) ↦ (
        upload,
        file,
        good,
        finished,
        ground (
          arith,
          insert_row-account_of
              (record { id = p.new_v4 w.draws; username = body.username; password_file = file })
              w.db,
        ),
      )
    ]
  ]

-- A registration that was answered with 201 stays: the username then has the password file that
-- OPAQUE made of the upload, and however the services answer, no other registration of that username
-- is answered with 201 or changes an account, until the accounts change.
pub registered_once :
    {p : Platform} (body again : RegisterFinishReq) (w u : World p)
    → (register_finish body w).0 ≡ ok created
    → u.db.accounts ≡ (register_finish body w).1.db.accounts
    → again.username ≡ body.username
    → (upload : Bytes) × (file : Bytes) × (decode p body.upload ≡ ok upload)
      × (p.server_register_finish upload ≡ some file)
      × (account_of body.username u.db.accounts
          ≡ some (record { id = p.new_v4 w.draws; username = body.username; password_file = file }))
      × ((register_finish again u).0 ≢ ok created)
      × ((register_finish again u).1.db.accounts ≡ u.db.accounts)
registered_once {p} body again w u h same name =
    let (upload, file, good, finished, row) = registered body w h in
    let kept =
      subst
        (λ rows.
          account_of body.username rows
          ≡ some (record { id = p.new_v4 w.draws; username = body.username; password_file = file }))
        (sym same) row in
    let (refused, unchanged) = register_finish-taken again u _ (rw (← name) at kept) in
    (upload, file, good, finished, kept, refused, unchanged)
