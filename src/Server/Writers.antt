-- ===== src/Server/Writers.antt =====
-- The handlers that write to the tables and those that do not: a relation that the first keep, and
-- that holds where the tables are the same, is kept by every handler of src/lib.rs.
use realm_guard_server.Prelude.{Option, String, ◌≡◌}
use realm_guard_server.Platform.{Platform, Uuid}
use realm_guard_server.World.{World}
use realm_guard_server.Auth.Api as Auth
use realm_guard_server.Relay.Vault
use realm_guard_server.Relay.Pairing
use realm_guard_server.Devices.Api as Devices
use realm_guard_server.Devices.AuthApi
use realm_guard_server.Sync.Api
use realm_guard_server.Server.Health
use realm_guard_server.Server.Routes.{Endpoint}
use realm_guard_server.Server.Routes
use realm_guard_server.Server.App.{Framework}
use realm_guard_server.Server.Frame.{IsFramed, Handles}
use realm_guard_server.Server.Idle

-- What is to be shown of a relation.
pub record Writers {p : Platform} (R : World p → World p → Type 0) (allowed : Uuid → Type 0)
    : Type 0 where
  pub unmoved : (w v : World p) → v.db ≡ w.db → R w v
  pub register_finish : (b : Auth.RegisterFinishReq) → IsFramed R (Auth.register_finish b)
  pub store :
      (account : Uuid) → allowed account → (b : Vault.StoreReq) → IsFramed R (Vault.store account b)
  pub register :
      (account : Uuid)
      → allowed account
      → (b : Devices.RegisterReq) → IsFramed R (Devices.register account b)
  pub revoke :
      (account : Uuid) → allowed account → (id : String) → IsFramed R (Devices.revoke account id)
  pub rename :
      (account : Uuid)
      → allowed account
      → (id : String) (b : Devices.RenameReq) → IsFramed R (Devices.rename account id b)
  pub push :
      (account : Uuid) → allowed account → (b : Api.PushReq) → IsFramed R (Api.push account b)
  pub put_snapshot :
      (account : Uuid)
      → allowed account
      → (b : Api.SnapshotReq) → IsFramed R (Api.put_snapshot account b)

module _ {p : Platform} (R : World p → World p → Type 0) (allowed : Uuid → Type 0)
    (writers : Writers R allowed) where
  pub from_request_parts-IsFramed :
      (authorization : Option String) → IsFramed {p = p} R (Auth.from_request_parts authorization)
  from_request_parts-IsFramed authorization w =
      writers.unmoved w (Auth.from_request_parts authorization w).1
        (Idle.from_request_parts-IsIdle authorization w)

  pub handled : (fw : Framework) (e : Endpoint) → Handles R allowed fw e
  handled fw Routes.healthz = λ w.
      writers.unmoved w (Health.healthz fw.core_version w).1 (Idle.healthz-IsIdle fw.core_version w)
  handled fw Routes.readyz = λ w. writers.unmoved w (Health.readyz w).1 (Idle.readyz-IsIdle w)
  handled fw Routes.metrics = tt
  handled fw Routes.register_start =
      λ b w. writers.unmoved w (Auth.register_start b w).1 (Idle.register_start-IsIdle b w)
  handled fw Routes.register_finish = writers.register_finish
  handled fw Routes.login_start =
      λ b w. writers.unmoved w (Auth.login_start b w).1 (Idle.login_start-IsIdle b w)
  handled fw Routes.login_finish =
      λ b w. writers.unmoved w (Auth.login_finish b w).1 (Idle.login_finish-IsIdle b w)
  handled fw Routes.me =
      λ account _ w. writers.unmoved w (Auth.me account w).1 (Idle.me-IsIdle account w)
  handled fw Routes.pairing_deposit =
      λ id b w. writers.unmoved w (Pairing.deposit id b w).1 (Idle.deposit-IsIdle id b w)
  handled fw Routes.pairing_fetch =
      λ id w. writers.unmoved w (Pairing.fetch id w).1 (Idle.pairing_fetch-IsIdle id w)
  handled fw Routes.vault_store = writers.store
  handled fw Routes.vault_fetch =
      λ account _ w. writers.unmoved w (Vault.fetch account w).1 (Idle.vault_fetch-IsIdle account w)
  handled fw Routes.device_list =
      λ account _ w. writers.unmoved w (Devices.list account w).1 (Idle.list-IsIdle account w)
  handled fw Routes.device_register = writers.register
  handled fw Routes.device_revoke = writers.revoke
  handled fw Routes.device_rename = writers.rename
  handled fw Routes.device_challenge =
      λ b w. writers.unmoved w (AuthApi.challenge b w).1 (Idle.challenge-IsIdle b w)
  handled fw Routes.device_verify =
      λ b w. writers.unmoved w (AuthApi.verify b w).1 (Idle.verify-IsIdle b w)
  handled fw Routes.sync_push = writers.push
  handled fw Routes.sync_pull =
      λ account _ q w. writers.unmoved w (Api.pull account q w).1 (Idle.pull-IsIdle account q w)
  handled fw Routes.snapshot_put = writers.put_snapshot
  handled fw Routes.snapshot_get = λ account _ w.
      writers.unmoved w (Api.get_snapshot account w).1 (Idle.get_snapshot-IsIdle account w)
  handled fw Routes.sync_ws = tt
