-- ===== src/Server/Holding/Calm.antt =====
-- The handlers that do nothing to Redis leave the session of a token there.
use realm_guard_server.Prelude.{String, Option, arith}
use realm_guard_server.Platform.{Platform, Uuid}
use realm_guard_server.World.{World}
use realm_guard_server.Auth.Accounts.{insert_row}
use realm_guard_server.Auth.Api as Auth
use realm_guard_server.Relay.Vault
use realm_guard_server.Devices.Registry.{upsert_device}
use realm_guard_server.Devices.Api as Devices
use realm_guard_server.Sync.Api
use realm_guard_server.Server.Health
use realm_guard_server.Server.Holding.{HasKept}

module _ (p : Platform) (token : String) where
  pub from_request_parts-HasKept :
      (authorization : Option String) (w : World p)
      → HasKept p token w (Auth.from_request_parts authorization w).1
  unfolding Auth.from_request_parts
  from_request_parts-HasKept authorization w = ground arith

  pub healthz-HasKept : (v : String) (w : World p) → HasKept p token w (Health.healthz v w).1
  unfolding Health.healthz
  healthz-HasKept v w = ground arith

  pub readyz-HasKept : (w : World p) → HasKept p token w (Health.readyz w).1
  unfolding Health.readyz
  readyz-HasKept w = ground arith

  pub register_start-HasKept :
      (body : Auth.RegisterStartReq) (w : World p)
      → HasKept p token w (Auth.register_start body w).1
  unfolding Auth.register_start
  register_start-HasKept body w = ground arith

  pub register_finish-HasKept :
      (body : Auth.RegisterFinishReq) (w : World p)
      → HasKept p token w (Auth.register_finish body w).1
  unfolding Auth.register_finish insert_row
  register_finish-HasKept body w = ground arith

  pub me-HasKept : (account : Uuid) (w : World p) → HasKept p token w (Auth.me account w).1
  unfolding Auth.me
  me-HasKept account w = ground arith

  pub store-HasKept :
      (account : Uuid) (body : Vault.StoreReq) (w : World p)
      → HasKept p token w (Vault.store account body w).1
  unfolding Vault.store
  store-HasKept account body w = ground arith

  pub vault_fetch-HasKept :
      (account : Uuid) (w : World p) → HasKept p token w (Vault.fetch account w).1
  unfolding Vault.fetch
  vault_fetch-HasKept account w = ground arith

  pub register-HasKept :
      (account : Uuid) (body : Devices.RegisterReq) (w : World p)
      → HasKept p token w (Devices.register account body w).1
  unfolding Devices.register upsert_device
  register-HasKept account body w = ground arith

  pub list-HasKept : (account : Uuid) (w : World p) → HasKept p token w (Devices.list account w).1
  unfolding Devices.list
  list-HasKept account w = ground arith

  pub rename-HasKept :
      (account : Uuid) (id : String) (body : Devices.RenameReq) (w : World p)
      → HasKept p token w (Devices.rename account id body w).1
  unfolding Devices.rename
  rename-HasKept account id body w = ground arith

  pub revoke-HasKept :
      (account : Uuid) (id : String) (w : World p)
      → HasKept p token w (Devices.revoke account id w).1
  unfolding Devices.revoke
  revoke-HasKept account id w = ground arith

  pub push-HasKept :
      (account : Uuid) (body : Api.PushReq) (w : World p)
      → HasKept p token w (Api.push account body w).1
  unfolding Api.push
  push-HasKept account body w = ground arith

  pub pull-HasKept :
      (account : Uuid) (query : Api.PullQuery) (w : World p)
      → HasKept p token w (Api.pull account query w).1
  unfolding Api.pull
  pull-HasKept account query w = ground arith

  pub put_snapshot-HasKept :
      (account : Uuid) (body : Api.SnapshotReq) (w : World p)
      → HasKept p token w (Api.put_snapshot account body w).1
  unfolding Api.put_snapshot
  put_snapshot-HasKept account body w = ground arith

  pub get_snapshot-HasKept :
      (account : Uuid) (w : World p) → HasKept p token w (Api.get_snapshot account w).1
  unfolding Api.get_snapshot
  get_snapshot-HasKept account w = ground arith
