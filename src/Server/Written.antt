-- ===== src/Server/Written.antt =====
-- What `register_finish` of src/auth_api.rs, `store` of src/vault_api.rs and the handlers of
-- src/devices_api.rs do to the tables, on every branch.
use realm_guard_server.Prelude.{some, ◌≡◌, ◌⊎◌, ap, sym, subst, inl, inr, Option-cases, arith}
use realm_guard_server.Platform.{Platform, Bytes, Uuid}
use realm_guard_server.Database.{Database, AccountRow, VaultKeyRow}
use realm_guard_server.Result.{Result-cases}
use realm_guard_server.World.{World, first, Outcome-cases}
use realm_guard_server.Auth.Accounts.{insert_row}
use realm_guard_server.Auth.Api.{RegisterFinishReq, decode, register_finish}
use realm_guard_server.Relay.Vault
use realm_guard_server.Relay.Vault.{upsert_row}
use realm_guard_server.Server.Still.{but_devices}

module _ {p : Platform} where
  -- What `register_finish` and `store` do to the tables, on every branch.
  pub db-register_finish :
      (b : RegisterFinishReq) (w : World p)
      → ((register_finish b w).1.db ≡ w.db)
        ⊎ ((a : AccountRow) × (upload : Bytes) × (p.server_register_finish upload
              ≡ some a.password_file)
            × ((register_finish b w).1.db ≡ (insert_row a w.db).1))
  unfolding register_finish
  db-register_finish b w = elim (Result-cases (decode p b.upload)) [
    | inr (e, bad) ↦ inl (ground arith)
    | inl (upload, good) ↦ elim (Option-cases (p.server_register_finish upload)) [
      | inl bad ↦ inl (ground arith)
      | inr (file, finished) ↦ elim (Outcome-cases (first w.schedule)) [
        | inl r ↦ inl (ground arith)
        | inr r ↦ inr (
          record { id = p.new_v4 w.draws; username = b.username; password_file = file },
          upload,
          finished,
          ground arith,
        )
      ]
    ]
  ]

  pub db-store :
      (account : Uuid) (b : Vault.StoreReq) (w : World p)
      → ((Vault.store account b w).1.db ≡ w.db)
        ⊎ ((new : VaultKeyRow) × ((Vault.store account b w).1.db ≡ (upsert_row new w.db).1))
  unfolding Vault.store
  db-store account b w = elim (Result-cases (Vault.decode p b.wrapped_key)) [
    | inr (e, bad) ↦ inl (ground arith)
    | inl (wrapped, good) ↦ elim (Result-cases (Vault.decode p b.salt)) [
      | inr (e, bad) ↦ inl (ground arith)
      | inl (salt, fine) ↦ elim (Outcome-cases (first w.schedule)) [
        | inl r ↦ inl (ground arith)
        | inr r ↦
            inr (record { account_id = account; wrapped_key = wrapped; salt = salt }, ground arith)
      ]
    ]
  ]

  -- Where only the devices have changed.
  pub devices_only :
      (P : Database → Type 0) (w v : World p)
      → but_devices v.db ≡ but_devices w.db
      → P (record w.db { devices = v.db.devices })
      → P v.db
  devices_only P w v e h =
      let put : v.db ≡ record w.db { devices = v.db.devices } =
        ap {A = Database} {B = Database} (λ db. record db { devices = v.db.devices }) e in
      subst P (sym put) h
