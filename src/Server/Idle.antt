-- ===== src/Server/Idle.antt =====
-- The handlers that leave the tables alone, outside src/sync_api.rs and in it.
use realm_guard_server.Prelude.{String, ◌≡◌, inl, inr, Option, arith}
use realm_guard_server.Platform.{Platform, Bytes, Uuid}
use realm_guard_server.Result.{Result-cases}
use realm_guard_server.World.{World, Exec, redis}
use realm_guard_server.Auth.Api as Auth
use realm_guard_server.Auth.Sessions.{take_login_flow}
use realm_guard_server.Auth.RateLimit.{locked_for}
use realm_guard_server.Relay.Vault
use realm_guard_server.Relay.Pairing
use realm_guard_server.Devices.Api as Devices
use realm_guard_server.Devices.AuthApi
use realm_guard_server.Sync.Api
use realm_guard_server.Server.Health
use realm_guard_server.Sync.Effects.{db-pull, db-get_snapshot}

-- What runs leaves the tables alone.
abbrev pub IsIdle : {p : Platform} {E A : Type 0} → Exec p E A → Type 0
IsIdle {p} m = (w : World p) → (m w).1.db ≡ w.db

module _ {p : Platform} where
  pub from_request_parts-IsIdle :
      (authorization : Option String) → IsIdle {p = p} (Auth.from_request_parts authorization)
  unfolding Auth.from_request_parts
  from_request_parts-IsIdle authorization w = ground arith

  pub healthz-IsIdle : (v : String) → IsIdle {p = p} (Health.healthz v)
  unfolding Health.healthz
  healthz-IsIdle v w = ground arith

  pub readyz-IsIdle : IsIdle {p = p} (Health.readyz)
  unfolding Health.readyz
  readyz-IsIdle w = ground arith

  pub register_start-IsIdle :
      (body : Auth.RegisterStartReq) → IsIdle {p = p} (Auth.register_start body)
  unfolding Auth.register_start
  register_start-IsIdle body w = ground arith

  redis-IsIdle : IsIdle {p = p} redis
  unfolding redis
  redis-IsIdle w = ground arith

  locked_for-IsIdle : (username : String) → IsIdle {p = p} (locked_for username)
  unfolding locked_for
  locked_for-IsIdle username w = ground arith

  start_flow-IsIdle :
      (username : String) (request : Bytes) → IsIdle {p = p} (Auth.start_flow username request)
  unfolding Auth.start_flow Auth.open_flow
  start_flow-IsIdle username request w = ground arith

  pub login_start-IsIdle : (body : Auth.LoginStartReq) → IsIdle {p = p} (Auth.login_start body)
  unfolding Auth.login_start
  login_start-IsIdle body w =
      let u = (redis w).1 in
      let connecting = redis-IsIdle w in
      let asking = locked_for-IsIdle body.username u in
      elim (Result-cases (Auth.decode p body.request)) [
        | inr (e, bad) ↦ ground arith
        | inl (request, good) ↦
            let flow = start_flow-IsIdle body.username request (locked_for body.username u).1 in
            ground arith
      ]

  pub login_finish-IsIdle : (body : Auth.LoginFinishReq) → IsIdle {p = p} (Auth.login_finish body)
  unfolding Auth.login_finish Auth.open_session Auth.refuse_login take_login_flow
  login_finish-IsIdle body w = ground arith

  pub me-IsIdle : (account : Uuid) → IsIdle {p = p} (Auth.me account)
  unfolding Auth.me
  me-IsIdle account w = ground arith

  pub deposit-IsIdle :
      (id : String) (body : Pairing.DepositReq) → IsIdle {p = p} (Pairing.deposit id body)
  unfolding Pairing.deposit
  deposit-IsIdle id body w = ground arith

  pub pairing_fetch-IsIdle : (id : String) → IsIdle {p = p} (Pairing.fetch id)
  unfolding Pairing.fetch
  pairing_fetch-IsIdle id w = ground arith

  pub vault_fetch-IsIdle : (account : Uuid) → IsIdle {p = p} (Vault.fetch account)
  unfolding Vault.fetch
  vault_fetch-IsIdle account w = ground arith

  pub list-IsIdle : (account : Uuid) → IsIdle {p = p} (Devices.list account)
  unfolding Devices.list
  list-IsIdle account w = ground arith

  pub challenge-IsIdle : (body : AuthApi.ChallengeReq) → IsIdle {p = p} (AuthApi.challenge body)
  unfolding AuthApi.challenge
  challenge-IsIdle body w = ground arith

  pub verify-IsIdle : (body : AuthApi.VerifyReq) → IsIdle {p = p} (AuthApi.verify body)
  unfolding AuthApi.verify AuthApi.open_session
  verify-IsIdle body w = ground arith

  pub pull-IsIdle :
      (account : Uuid) (query : Api.PullQuery) → IsIdle {p = p} (Api.pull account query)
  pull-IsIdle account query w = db-pull account w query

  pub get_snapshot-IsIdle : (account : Uuid) → IsIdle {p = p} (Api.get_snapshot account)
  get_snapshot-IsIdle account w = db-get_snapshot account w
