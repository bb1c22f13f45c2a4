-- ===== src/Server/Lasting.antt =====
-- Theorems on what src/vault_api.rs keeps for an account through the life of the whole application.
use realm_guard_server.Prelude.{◌≡◌, ◌∙◌, ap, subst, sym, some, [], arith}
use realm_guard_server.Platform.{Platform, Bytes, Uuid}
use realm_guard_server.Database.{VaultKeyRow}
use realm_guard_server.Result.{ok, no_content}
use realm_guard_server.World.{World}
use realm_guard_server.Relay.Vault
use realm_guard_server.Relay.Vault.{StoreReq, vault_key_of}
use realm_guard_server.Relay.Custody.{upsert_row-find}
use realm_guard_server.Devices.Ownership.{HasUniqueKeys}
use realm_guard_server.Server.App.{Framework}
use realm_guard_server.Server.Still
use realm_guard_server.Server.Apart.{Absence, undisturbed}

module _ {p : Platform} (account : Uuid) (body : StoreReq) (w : World p) (wrapped salt : Bytes)
    (a : p.decode64 body.wrapped_key ≡ some wrapped) (b : p.decode64 body.salt ≡ some salt) where
  stored_row :
      (Vault.store account body w).0 ≡ ok no_content
      → vault_key_of account (Vault.store account body w).1.db.vault_keys
        ≡ some (record { account_id = account; wrapped_key = wrapped; salt = salt })
  unfolding Vault.store Vault.decode
  stored_row stored = ground (
    arith,
    upsert_row-find (record { account_id = account; wrapped_key = wrapped; salt = salt }) w.db,
  )

fetched_row :
    {p : Platform} (account : Uuid) (row : VaultKeyRow) (v : World p)
    → v.schedule ≡ []
    → vault_key_of account v.db.vault_keys ≡ some row
    → (Vault.fetch account v).0
      ≡ ok (record { wrapped_key = p.encode64 row.wrapped_key; salt = p.encode64 row.salt })
unfolding Vault.fetch
fetched_row account row v up h = ground arith

-- A vault key that `store` accepted is not lost. With device keys that are unique: after any requests
-- by anyone to any path but none with a session of this account, however the services answered them,
-- and after any time, `fetch` answers with what was stored, the services being up again.
pub stored_lasts :
    {p : Platform} (fw : Framework) (account : Uuid) (body : StoreReq) (w v : World p)
    (wrapped salt : Bytes)
    → HasUniqueKeys w.db.devices
    → p.decode64 body.wrapped_key ≡ some wrapped
    → p.decode64 body.salt ≡ some salt
    → (Vault.store account body w).0 ≡ ok no_content
    → Absence fw account (Vault.store account body w).1 v
    → v.schedule ≡ []
    → (Vault.fetch account v).0
      ≡ ok (record { wrapped_key = p.encode64 wrapped; salt = p.encode64 salt })
stored_lasts fw account body w v wrapped salt unique a b stored absent up =
    let u = (Vault.store account body w).1 in
    let same : u.db.devices ≡ w.db.devices =
      ap (λ db. db.devices) (Still.store-IsStill account body w) in
    let kept = (undisturbed fw account u v (subst HasUniqueKeys (sym same) unique) absent).1 in
    fetched_row account _ v up (kept.vault_key ∙ stored_row account body w wrapped salt a b stored)
