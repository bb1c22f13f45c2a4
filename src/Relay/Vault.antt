-- ===== src/Relay/Vault.antt =====
-- src/vault_keys.rs and src/vault_api.rs: one wrapped key and salt for each account.
use mathlib.Core.Option
use realm_guard_server.Prelude.{
  String, Option, none, some, List, [], ◌∷◌, ◌++◌, map, ◌==◌, find?, if◌then◌else◌,
}
use realm_guard_server.Platform.{Platform, Bytes, Uuid}
use realm_guard_server.Database.{Database, VaultKeyRow, has_account}
use realm_guard_server.Result.{
  Result, ok, err, ok_or, internal, Failure, foreign_key_violation, StatusCode, no_content,
  bad_request, not_found,
}
use realm_guard_server.World.{Exec, postgres, pure, lift, map_err, ◌>>=◌, ◌>>◌}

abbrev pub vault_key_of : Uuid → List VaultKeyRow → Option VaultKeyRow
vault_key_of account_id = find? (λ k. k.account_id == account_id)

abbrev pub set_vault_key : VaultKeyRow → List VaultKeyRow → List VaultKeyRow
set_vault_key new = map (λ k. if k.account_id == new.account_id then new else k)

-- INSERT INTO vault_keys … ON CONFLICT (account_id) DO UPDATE
unfoldable pub upsert_row : VaultKeyRow → Database → Result Failure (Unit {0}) × Database
upsert_row new db = elim (vault_key_of new.account_id db.vault_keys) [
  | some _ ↦ (ok tt, record db { vault_keys = set_vault_key new db.vault_keys })
  | none ↦
      if has_account new.account_id db
      then (ok tt, record db { vault_keys = db.vault_keys ++ new ∷ [] })
      else (err foreign_key_violation, db)
]

pub record StoreReq : Type 0 where
  pub wrapped_key : String
  pub salt : String

pub record FetchResp : Type 0 where
  pub wrapped_key : String
  pub salt : String

unfoldable pub decode : Platform → String → Result StatusCode Bytes
decode p field = ok_or bad_request (p.decode64 field)

module _ {p : Platform} where
  unfoldable pub upsert : Uuid → Bytes → Bytes → Exec p Failure (Unit {0})
  unfolding postgres
  upsert account_id wrapped_key salt =
      postgres
        (upsert_row (record { account_id = account_id; wrapped_key = wrapped_key; salt = salt }))

  unfoldable pub get : Uuid → Exec p Failure (Option (Bytes × Bytes))
  unfolding postgres
  get account_id = postgres λ db.
      (ok (Option.map (λ k. (k.wrapped_key, k.salt)) (vault_key_of account_id db.vault_keys)), db)

  unfoldable pub store : Uuid → StoreReq → Exec p StatusCode StatusCode
  unfolding upsert
  store account body = do
    wrapped ← lift (decode p body.wrapped_key)
    salt ← lift (decode p body.salt)
    map_err internal (upsert account wrapped salt)
    pure no_content

  unfoldable pub fetch : Uuid → Exec p StatusCode FetchResp
  unfolding get
  fetch account = do
    row ← map_err internal (get account)
    found ← lift (ok_or not_found row)
    pure (record { wrapped_key = p.encode64 found.0; salt = p.encode64 found.1 })
