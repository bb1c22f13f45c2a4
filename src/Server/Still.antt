-- ===== src/Server/Still.antt =====
-- The handlers that write to a table: they leave the other tables alone.
use realm_guard_server.Prelude.{[], String, ◌≡◌, arith}
use realm_guard_server.Platform.{Platform, Uuid}
use realm_guard_server.World.{World, Exec}
use realm_guard_server.Auth.Api as Auth
use realm_guard_server.Devices.Registry.{upsert_device}
use realm_guard_server.Relay.Vault
use realm_guard_server.Devices.Api as Devices
use realm_guard_server.Sync.Deltas.{insert_delta}
use realm_guard_server.Sync.Snapshots.{upsert_snapshot, delete_covered}
use realm_guard_server.Sync.Api
use realm_guard_server.Database.{Database}
use realm_guard_server.Auth.Accounts.{insert_row}

-- The tables, without those that a handler writes to.
abbrev pub but_accounts : Database → Database
but_accounts db = record db { accounts = [] }

abbrev pub but_vault_keys : Database → Database
but_vault_keys db = record db { vault_keys = [] }

abbrev pub but_devices : Database → Database
but_devices db = record db { devices = [] }

abbrev pub but_log : Database → Database
but_log db = record db { deltas = []; next_seq = 0 }

abbrev pub but_published : Database → Database
but_published db = record db { deltas = []; snapshots = [] }

-- What runs leaves these tables alone.
abbrev pub IsStill : {p : Platform} {E A : Type 0} → (Database → Database) → Exec p E A → Type 0
IsStill {p} tables m = (w : World p) → tables (m w).1.db ≡ tables w.db

module _ {p : Platform} where
  pub register_finish-IsStill :
      (body : Auth.RegisterFinishReq) → IsStill {p = p} but_accounts (Auth.register_finish body)
  unfolding Auth.register_finish insert_row
  register_finish-IsStill body w = ground arith

  pub store-IsStill :
      (account : Uuid) (body : Vault.StoreReq)
      → IsStill {p = p} but_vault_keys (Vault.store account body)
  unfolding Vault.store Vault.upsert_row
  store-IsStill account body w = ground arith

  pub register-IsStill :
      (account : Uuid) (body : Devices.RegisterReq)
      → IsStill {p = p} but_devices (Devices.register account body)
  unfolding Devices.register upsert_device
  register-IsStill account body w = ground arith

  pub rename-IsStill :
      (account : Uuid) (id : String) (body : Devices.RenameReq)
      → IsStill {p = p} but_devices (Devices.rename account id body)
  unfolding Devices.rename
  rename-IsStill account id body w = ground arith

  pub revoke-IsStill :
      (account : Uuid) (id : String) → IsStill {p = p} but_devices (Devices.revoke account id)
  unfolding Devices.revoke
  revoke-IsStill account id w = ground arith

  pub push-IsStill :
      (account : Uuid) (body : Api.PushReq) → IsStill {p = p} but_log (Api.push account body)
  unfolding Api.push insert_delta
  push-IsStill account body w = ground arith

  pub put_snapshot-IsStill :
      (account : Uuid) (body : Api.SnapshotReq)
      → IsStill {p = p} but_published (Api.put_snapshot account body)
  unfolding Api.put_snapshot upsert_snapshot delete_covered
  put_snapshot-IsStill account body w = ground arith
