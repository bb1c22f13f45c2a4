-- ===== src/Auth/Api.antt =====
-- src/auth_api.rs: registration, login, and the extractor that authenticates a request by its
-- session token.
use realm_guard_server.Prelude.{ℕ, String, true, false, Option, none, some, if◌then◌else◌}
use realm_guard_server.Prelude.Text.{strip_prefix}
use realm_guard_server.Prelude.Utf8.{as_bytes}
use realm_guard_server.Platform.{Platform, Bytes, Uuid, LoginFlow}
use realm_guard_server.Result.{
  Result, ok_or, internal, wrong_type, StatusCode, created, bad_request, unauthorized, conflict,
}
use realm_guard_server.Metrics.{record_registration, record_login, record_login_lockout}
use realm_guard_server.World.{
  Exec, pure, fail, lift, gets, count, draw, redis, map_err, ◌>>=◌, ◌>>◌,
}
use realm_guard_server.Auth.Accounts.{insert_account, username_taken, account_credentials}
use realm_guard_server.Auth.Sessions.{
  store_login_flow, take_login_flow, create_session, session_account, and_then,
}
use realm_guard_server.Auth.RateLimit.{locked_for, record_failure, reset}

pub record RegisterStartReq : Type 0 where
  pub username : String
  pub request : String

pub record MessageResp : Type 0 where
  pub response : String

pub record RegisterFinishReq : Type 0 where
  pub username : String
  pub upload : String

pub record LoginStartReq : Type 0 where
  pub username : String
  pub request : String

pub record LoginStartResp : Type 0 where
  pub response : String
  pub flow_id : String

-- `login/start` answers a flow, or 429 with the seconds of `Retry-After`.
pub data LoginStartReply : Type 0 where
  started : LoginStartResp → LoginStartReply
  too_many_requests : ℕ → LoginStartReply

pub record LoginFinishReq : Type 0 where
  pub flow_id : String
  pub finalization : String

pub record LoginFinishResp : Type 0 where
  pub session_token : String

pub record MeResp : Type 0 where
  pub account_id : String

unfoldable pub decode : Platform → String → Result StatusCode Bytes
decode p field = ok_or bad_request (p.decode64 field)

-- `as_deref` and the two halves of the credentials
abbrev pub id_of : Option (Uuid × Bytes) → Option Uuid
id_of none = none
id_of (some (id, _)) = some id

abbrev pub file_of : Option (Uuid × Bytes) → Option Bytes
file_of none = none
file_of (some (_, file)) = some file

module _ {p : Platform} where
  unfoldable pub register_start : RegisterStartReq → Exec p StatusCode MessageResp
  unfolding username_taken
  register_start body = do
    request ← lift (decode p body.request)
    taken ← map_err internal (username_taken body.username)
    if taken then fail conflict else do
      setup ← gets (λ w. w.opaque_setup)
      response ←
          lift (ok_or bad_request (p.server_register_start setup request (as_bytes body.username)))
      pure (record { response = p.encode64 response })

  unfoldable pub register_finish : RegisterFinishReq → Exec p StatusCode StatusCode
  unfolding insert_account
  register_finish body = do
    upload ← lift (decode p body.upload)
    password_file ← lift (ok_or bad_request (p.server_register_finish upload))
    map_err (λ _. conflict) (insert_account body.username password_file)
    count record_registration
    pure created

  -- From the credentials on: OPAQUE's answer, and the flow that waits in Redis.
  unfoldable pub open_flow :
      String → Bytes → Option (Uuid × Bytes) → Exec p StatusCode LoginStartReply
  unfolding store_login_flow
  open_flow username request credentials = do
    setup ← gets (λ w. w.opaque_setup)
    seed ← draw
    answer ← lift (
        ok_or bad_request
          (p.server_login_start seed setup (file_of credentials) request (as_bytes username)))
    n ← draw
    let flow_id = p.uuid_simple (p.new_v4 n)
    blob ← lift (
        ok_or (internal wrong_type) (
          p.encode_flow
            (record { state = answer.0; account_id = id_of credentials; username = username })))
    map_err internal (store_login_flow flow_id blob)
    pure (started (record { response = p.encode64 answer.1; flow_id = flow_id }))

  -- From the lock on: an unknown user goes the same way, with no password file.
  unfoldable pub start_flow : String → Bytes → Exec p StatusCode LoginStartReply
  unfolding account_credentials
  start_flow username request = do
    credentials ← map_err internal (account_credentials username)
    open_flow username request credentials

  -- 429 with `Retry-After`, counted.
  abbrev refuse : ℕ → Exec p StatusCode LoginStartReply
  refuse retry = do count record_login_lockout; pure (too_many_requests retry)

  unfoldable pub login_start : LoginStartReq → Exec p StatusCode LoginStartReply
  login_start body = do
    request ← lift (decode p body.request)
    map_err internal redis
    locked ← map_err internal (locked_for body.username)
    elim locked [ some retry ↦ refuse retry | none ↦ start_flow body.username request ]

  -- From a flow whose finalization OPAQUE accepted.
  unfoldable pub open_session : LoginFlow → Exec p StatusCode LoginFinishResp
  unfolding reset create_session
  open_session flow = do
    account_id ← lift (ok_or unauthorized flow.account_id)
    map_err internal (reset flow.username)
    count (record_login true)
    token ← map_err internal (create_session account_id)
    pure (record { session_token = token })

  -- From a flow whose finalization OPAQUE refused.
  unfoldable pub refuse_login : LoginFlow → Exec p StatusCode LoginFinishResp
  unfolding record_failure
  refuse_login flow = do
    map_err internal (record_failure flow.username)
    count (record_login false)
    fail unauthorized

  unfoldable pub login_finish : LoginFinishReq → Exec p StatusCode LoginFinishResp
  unfolding redis
  login_finish body = do
    finalization ← lift (decode p body.finalization)
    map_err internal redis
    taken ← map_err internal (take_login_flow body.flow_id)
    blob ← lift (ok_or unauthorized taken)
    flow ← lift (ok_or (internal wrong_type) (p.decode_flow blob))
    if p.server_login_finish flow.state finalization then open_session flow else refuse_login flow

  -- `AuthAccount::from_request_parts`, from the text of the Authorization header (none if the header
  -- is absent or is no visible ASCII)
  unfoldable pub from_request_parts : Option String → Exec p StatusCode Uuid
  unfolding redis session_account
  from_request_parts authorization = do
    token ← lift (ok_or unauthorized (and_then authorization (strip_prefix "Bearer ")))
    map_err internal redis
    found ← map_err internal (session_account token)
    lift (ok_or unauthorized found)

  -- `GET /auth/me`, behind the extractor
  unfoldable pub me : Uuid → Exec p StatusCode MeResp
  me account = pure (record { account_id = p.uuid_text account })
