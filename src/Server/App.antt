-- ===== src/Server/App.antt =====
-- The application: `build_app` of src/lib.rs with the extractors of the handlers' signatures, in their
-- order, and `track_metrics` of src/observability.rs around every route. The framework's matching of
-- paths, its parsing of bodies and queries, and its handshake of WebSockets are arguments.
use realm_guard_server.Prelude.{ℕ, String, Bool, Option, none, some, List, if◌then◌else◌}
use realm_guard_server.Platform.{Platform, Uuid}
use realm_guard_server.Result.{
  Result, ok, err, StatusCode, ok_200, created, no_content, bad_request, unauthorized, not_found,
  conflict, gone, internal_server_error, service_unavailable,
}
use realm_guard_server.Result
use realm_guard_server.Metrics.{Metrics, record_request}
use realm_guard_server.World.{World, Exec, pure, lift, map_err, gets, ◌>>=◌, ◌>>◌}
use realm_guard_server.Auth.Api as Auth
use realm_guard_server.Relay.Vault
use realm_guard_server.Relay.Pairing
use realm_guard_server.Devices.Api as Devices
use realm_guard_server.Devices.AuthApi
use realm_guard_server.Sync.Api
use realm_guard_server.Server.Health
use realm_guard_server.Server.MetricsRoute.{render_metrics}
use realm_guard_server.Server.Routes.{Method, Endpoint, Route, on_method, route_of}
use realm_guard_server.Server.Routes

abbrev pub code : StatusCode → ℕ
code ok_200 = 200
code created = 201
code no_content = 204
code bad_request = 400
code unauthorized = 401
code not_found = 404
code conflict = 409
code gone = 410
code Result.too_many_requests = 429
code internal_server_error = 500
code service_unavailable = 503

pub record Request : Type 0 where
  pub method : Method
  pub path : String
  pub query : String
  -- the text of the Authorization header, if it has one
  pub authorization : Option String
  pub body : String

-- What an answer carries beside its status.
pub data Content : Type 0 where
  empty : Content
  text : String → Content
  health : Health.Health → Content
  ready : Health.Ready → Content
  message : Auth.MessageResp → Content
  flow : Auth.LoginStartResp → Content
  retry_after : ℕ → Content
  session : Auth.LoginFinishResp → Content
  account : Auth.MeResp → Content
  pairing : Pairing.FetchResp → Content
  vault_key : Vault.FetchResp → Content
  devices : List Devices.DeviceResp → Content
  device : Devices.RegisterResp → Content
  challenge : AuthApi.ChallengeResp → Content
  device_session : AuthApi.VerifyResp → Content
  pushed : Api.PushResp → Content
  pulled : Api.PullResp → Content
  published : Api.SnapshotPutResp → Content
  snapshot : Api.SnapshotResp → Content
  -- 101, with the account whose nudges the socket then relays (`handle` of src/sync_ws.rs)
  upgraded : Uuid → Content

pub record Response : Type 0 where
  pub status : ℕ
  pub content : Content

pub record Framework : Type 0 where
  -- the pattern whose route a path belongs to, with what its `{id}` stands for
  pub matched : String → Option (String × String)
  pub method_name : Method → String
  -- whether the layer of the routes runs for a method that a route lacks
  pub layered_405 : Bool
  -- `Json` and `Query`: what is refused, with the status of the refusal
  pub register_start_req : String → Result ℕ Auth.RegisterStartReq
  pub register_finish_req : String → Result ℕ Auth.RegisterFinishReq
  pub login_start_req : String → Result ℕ Auth.LoginStartReq
  pub login_finish_req : String → Result ℕ Auth.LoginFinishReq
  pub deposit_req : String → Result ℕ Pairing.DepositReq
  pub store_req : String → Result ℕ Vault.StoreReq
  pub register_req : String → Result ℕ Devices.RegisterReq
  pub rename_req : String → Result ℕ Devices.RenameReq
  pub challenge_req : String → Result ℕ AuthApi.ChallengeReq
  pub verify_req : String → Result ℕ AuthApi.VerifyReq
  pub push_req : String → Result ℕ Api.PushReq
  pub pull_query : String → Result ℕ Api.PullQuery
  pub snapshot_req : String → Result ℕ Api.SnapshotReq
  -- `WebSocketUpgrade`
  pub upgrade : Request → Result ℕ (Unit {0})
  -- the recorder's rendering, the version of realm-guard-core, and RG_METRICS_TOKEN
  pub rendered : Metrics → String
  pub core_version : String
  pub metrics_token : Option String

abbrev pub reply : ℕ → Content → Response
reply status content = record { status = status; content = content }

-- `Result<_, StatusCode>` as a response
abbrev pub into_response : Result ℕ Response → Response
into_response (ok r) = r
into_response (err status) = reply status empty

abbrev pub login_reply : Auth.LoginStartReply → Response
login_reply (Auth.started r) = reply 200 (flow r)
login_reply (Auth.too_many_requests seconds) = reply 429 (retry_after seconds)

module _ {p : Platform} (fw : Framework) where
  abbrev handler : {A : Type 0} → Exec p StatusCode A → Exec p ℕ A
  handler = map_err code

  -- The extractor `AuthAccount`, and what needs an account.
  abbrev pub authenticated : Option String → (Uuid → Exec p ℕ Response) → Exec p ℕ Response
  authenticated authorization k = do
    account_id ← handler (Auth.from_request_parts authorization)
    k account_id

  -- The endpoint's extractors, its handler, and its response.
  unfoldable pub serve : Endpoint → String → Request → Exec p ℕ Response
  serve Routes.healthz id req = do
    r ← handler (Health.healthz fw.core_version)
    pure (reply 200 (health r))
  serve Routes.readyz id req = do r ← handler Health.readyz; pure (reply 200 (ready r))
  serve Routes.metrics id req = do
    rendered ← gets (λ w. fw.rendered w.metrics)
    r ← handler (lift (render_metrics rendered fw.metrics_token req.authorization))
    pure (reply 200 (text r))
  serve Routes.register_start id req = do
    body ← lift (fw.register_start_req req.body)
    r ← handler (Auth.register_start body)
    pure (reply 200 (message r))
  serve Routes.register_finish id req = do
    body ← lift (fw.register_finish_req req.body)
    r ← handler (Auth.register_finish body)
    pure (reply (code r) empty)
  serve Routes.login_start id req = do
    body ← lift (fw.login_start_req req.body)
    r ← handler (Auth.login_start body)
    pure (login_reply r)
  serve Routes.login_finish id req = do
    body ← lift (fw.login_finish_req req.body)
    r ← handler (Auth.login_finish body)
    pure (reply 200 (session r))
  serve Routes.me id req =
      authenticated req.authorization
        λ account_id. do r ← handler (Auth.me account_id); pure (reply 200 (account r))
  serve Routes.pairing_deposit id req = authenticated req.authorization λ account_id. do
    body ← lift (fw.deposit_req req.body)
    r ← handler (Pairing.deposit id body)
    pure (reply (code r) empty)
  serve Routes.pairing_fetch id req = do
    r ← handler (Pairing.fetch id)
    pure (reply 200 (pairing r))
  serve Routes.vault_store id req = authenticated req.authorization λ account_id. do
    body ← lift (fw.store_req req.body)
    r ← handler (Vault.store account_id body)
    pure (reply (code r) empty)
  serve Routes.vault_fetch id req =
      authenticated req.authorization
        λ account_id. do r ← handler (Vault.fetch account_id); pure (reply 200 (vault_key r))
  serve Routes.device_list id req =
      authenticated req.authorization
        λ account_id. do r ← handler (Devices.list account_id); pure (reply 200 (devices r))
  serve Routes.device_register id req = authenticated req.authorization λ account_id. do
    body ← lift (fw.register_req req.body)
    r ← handler (Devices.register account_id body)
    pure (reply (code r.0) (device r.1))
  serve Routes.device_revoke id req =
      authenticated req.authorization
        λ account_id. do r ← handler (Devices.revoke account_id id); pure (reply (code r) empty)
  serve Routes.device_rename id req = authenticated req.authorization λ account_id. do
    body ← lift (fw.rename_req req.body)
    r ← handler (Devices.rename account_id id body)
    pure (reply (code r) empty)
  serve Routes.device_challenge id req = do
    body ← lift (fw.challenge_req req.body)
    r ← handler (AuthApi.challenge body)
    pure (reply 200 (challenge r))
  serve Routes.device_verify id req = do
    body ← lift (fw.verify_req req.body)
    r ← handler (AuthApi.verify body)
    pure (reply 200 (device_session r))
  serve Routes.sync_push id req = authenticated req.authorization λ account_id. do
    body ← lift (fw.push_req req.body)
    r ← handler (Api.push account_id body)
    pure (reply (code r.0) (pushed r.1))
  serve Routes.sync_pull id req = authenticated req.authorization λ account_id. do
    query ← lift (fw.pull_query req.query)
    r ← handler (Api.pull account_id query)
    pure (reply 200 (pulled r))
  serve Routes.snapshot_put id req = authenticated req.authorization λ account_id. do
    body ← lift (fw.snapshot_req req.body)
    r ← handler (Api.put_snapshot account_id body)
    pure (reply 200 (published r))
  serve Routes.snapshot_get id req =
      authenticated req.authorization
        λ account_id. do r ← handler (Api.get_snapshot account_id); pure (reply 200 (snapshot r))
  serve Routes.sync_ws id req =
      authenticated req.authorization
        λ account_id. do lift (fw.upgrade req); pure (reply 101 (upgraded account_id))

  -- One response of one endpoint.
  abbrev pub run : Exec p ℕ Response → World p → Response × World p
  run m w = let (r, w') = m w in (into_response r, w')

  -- `track_metrics`
  abbrev pub track : Request → String → Response × World p → Response × World p
  track req pattern (r, w) = (
    r,
    record w { metrics = record_request (fw.method_name req.method) pattern r.status w.metrics },
  )

  abbrev pub lacking : Request → String → World p → Response × World p
  lacking req pattern w =
      if fw.layered_405 then track req pattern (reply 405 empty, w) else (reply 405 empty, w)

  -- A request to a route, and to the application.
  abbrev pub respond_at : Request → String → String → Option Endpoint → World p → Response × World p
  respond_at req pattern id none w = lacking req pattern w
  respond_at req pattern id (some e) w = track req pattern (run (serve e id req) w)

  abbrev pub respond_on : Request → Option (String × String) → World p → Response × World p
  respond_on req none w = (reply 404 empty, w)
  respond_on req (some (pattern, id)) w = elim (route_of pattern) [
    | none ↦ (reply 404 empty, w)
    | some route ↦ respond_at req pattern id (on_method req.method route) w
  ]

  unfoldable pub respond : Request → World p → Response × World p
  unfolding serve
  respond req w = respond_on req (fw.matched req.path) w
