-- ===== src/Relay/Tenancy.antt =====
-- Theorems on `store` of src/vault_api.rs: it leaves the vault keys of other accounts alone.
use realm_guard_server.Prelude.{◌≡◌, ◌≢◌, refl, inl, inr, List, [], ◌∷◌, ◌++◌, arith, ==_iff}
use realm_guard_server.Platform.{Platform, Uuid}
use realm_guard_server.Database.{Database, VaultKeyRow}
use realm_guard_server.Result.{Result-cases}
use realm_guard_server.World.{World}
use realm_guard_server.Relay.Vault
use realm_guard_server.Relay.Vault.{vault_key_of, set_vault_key, upsert_row}

module _ (yours : Uuid) where
  find-set_other :
      (new : VaultKeyRow) (ks : List VaultKeyRow)
      → new.account_id ≢ yours
      → vault_key_of yours (set_vault_key new ks) ≡ vault_key_of yours ks
  find-set_other new [] apart = refl
  find-set_other new (k ∷ ks) apart = ground (
    arith,
    ==_iff new.account_id yours,
    ==_iff k.account_id new.account_id,
    ==_iff k.account_id yours,
    find-set_other new ks apart,
  )

  find-append_other :
      (new : VaultKeyRow) (ks : List VaultKeyRow)
      → new.account_id ≢ yours
      → vault_key_of yours (ks ++ new ∷ []) ≡ vault_key_of yours ks
  find-append_other new [] apart = ground (arith, ==_iff new.account_id yours)
  find-append_other new (k ∷ ks) apart = ground (arith, find-append_other new ks apart)

  upsert_row-other :
      (new : VaultKeyRow) (db : Database)
      → new.account_id ≢ yours
      → vault_key_of yours (upsert_row new db).1.vault_keys ≡ vault_key_of yours db.vault_keys
  unfolding upsert_row
  upsert_row-other new db apart =
      ground
        (arith, find-set_other new db.vault_keys apart, find-append_other new db.vault_keys apart)

module _ {p : Platform} (mine : Uuid) (w : World p) where
  pub store-other :
      (yours : Uuid) (b : Vault.StoreReq)
      → mine ≢ yours
      → vault_key_of yours (Vault.store mine b w).1.db.vault_keys
        ≡ vault_key_of yours w.db.vault_keys
  unfolding Vault.store
  store-other yours b apart = elim (Result-cases (Vault.decode p b.wrapped_key)) [
    | inr (e, bad) ↦ ground arith
    | inl (wrapped, good) ↦ elim (Result-cases (Vault.decode p b.salt)) [
      | inr (e, bad) ↦ ground arith
      | inl (salt, fine) ↦ ground (
        arith,
        upsert_row-other yours (record { account_id = mine; wrapped_key = wrapped; salt = salt })
            w.db apart,
      )
    ]
  ]
