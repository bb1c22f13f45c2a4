-- ===== src/Server/Frame.antt =====
-- A relation between the world before and after that every handler keeps: then every endpoint and
-- every answer of the application (src/lib.rs) keeps it.
use realm_guard_server.Prelude.{ℕ, String, ◌≡◌, sym, subst, inl, inr, Option, Option-cases, arith}
use realm_guard_server.Platform.{Platform, Uuid}
use realm_guard_server.Result.{Result, ok, err, StatusCode, Result-cases}
use realm_guard_server.Metrics.{Metrics}
use realm_guard_server.World.{World, Exec, pure, lift, map_err, ◌>>=◌}
use realm_guard_server.Auth.Api as Auth
use realm_guard_server.Relay.Vault
use realm_guard_server.Relay.Pairing
use realm_guard_server.Devices.Api as Devices
use realm_guard_server.Devices.AuthApi
use realm_guard_server.Sync.Api
use realm_guard_server.Server.Health
use realm_guard_server.Server.MetricsRoute.{render_metrics}
use realm_guard_server.Server.Routes.{Endpoint, on_method, route_of}
use realm_guard_server.Server.Routes
use realm_guard_server.Server.App
use realm_guard_server.Server.App.{
  code, reply, Request, Response, Framework, authenticated, serve, respond,
}

-- A relation that holds of no change and of one change after another.
pub record IsFrame {p : Platform} (R : World p → World p → Type 0) : Type 0 where
  pub same : (w : World p) → R w w
  pub joined : (u v w : World p) → R u v → R v w → R u w

-- What runs keeps the relation.
abbrev pub IsFramed :
    {p : Platform} {E A : Type 0} → (World p → World p → Type 0) → Exec p E A → Type 0
IsFramed {p} R m = (w : World p) → R w (m w).1

-- The account that the extractor answers with, if it does, is one of these.
abbrev pub IsPermitted : {p : Platform} → (Uuid → Type 0) → Option String → World p → Type 0
IsPermitted allowed authorization w =
    (account : Uuid) → (Auth.from_request_parts authorization w).0 ≡ ok account → allowed account

-- What an endpoint runs behind its extractors keeps the relation, for these accounts.
abbrev pub Handles :
    {p : Platform} → (World p → World p → Type 0) → (Uuid → Type 0) → Framework → Endpoint → Type 0
Handles {p} R allowed fw Routes.healthz = IsFramed {p = p} R (Health.healthz fw.core_version)
Handles {p} R allowed fw Routes.readyz = IsFramed {p = p} R (Health.readyz)
Handles R allowed fw Routes.metrics = Unit {0}
Handles {p} R allowed fw Routes.register_start =
    (b : Auth.RegisterStartReq) → IsFramed {p = p} R (Auth.register_start b)
Handles {p} R allowed fw Routes.register_finish =
    (b : Auth.RegisterFinishReq) → IsFramed {p = p} R (Auth.register_finish b)
Handles {p} R allowed fw Routes.login_start =
    (b : Auth.LoginStartReq) → IsFramed {p = p} R (Auth.login_start b)
Handles {p} R allowed fw Routes.login_finish =
    (b : Auth.LoginFinishReq) → IsFramed {p = p} R (Auth.login_finish b)
Handles {p} R allowed fw Routes.me =
    (account : Uuid) → allowed account → IsFramed {p = p} R (Auth.me account)
Handles {p} R allowed fw Routes.pairing_deposit =
    (id : String) (b : Pairing.DepositReq) → IsFramed {p = p} R (Pairing.deposit id b)
Handles {p} R allowed fw Routes.pairing_fetch =
    (id : String) → IsFramed {p = p} R (Pairing.fetch id)
Handles {p} R allowed fw Routes.vault_store =
    (account : Uuid)
    → allowed account
    → (b : Vault.StoreReq) → IsFramed {p = p} R (Vault.store account b)
Handles {p} R allowed fw Routes.vault_fetch =
    (account : Uuid) → allowed account → IsFramed {p = p} R (Vault.fetch account)
Handles {p} R allowed fw Routes.device_list =
    (account : Uuid) → allowed account → IsFramed {p = p} R (Devices.list account)
Handles {p} R allowed fw Routes.device_register =
    (account : Uuid)
    → allowed account
    → (b : Devices.RegisterReq) → IsFramed {p = p} R (Devices.register account b)
Handles {p} R allowed fw Routes.device_revoke =
    (account : Uuid)
    → allowed account
    → (id : String) → IsFramed {p = p} R (Devices.revoke account id)
Handles {p} R allowed fw Routes.device_rename =
    (account : Uuid)
    → allowed account
    → (id : String) (b : Devices.RenameReq) → IsFramed {p = p} R (Devices.rename account id b)
Handles {p} R allowed fw Routes.device_challenge =
    (b : AuthApi.ChallengeReq) → IsFramed {p = p} R (AuthApi.challenge b)
Handles {p} R allowed fw Routes.device_verify =
    (b : AuthApi.VerifyReq) → IsFramed {p = p} R (AuthApi.verify b)
Handles {p} R allowed fw Routes.sync_push =
    (account : Uuid) → allowed account → (b : Api.PushReq) → IsFramed {p = p} R (Api.push account b)
Handles {p} R allowed fw Routes.sync_pull =
    (account : Uuid)
    → allowed account
    → (q : Api.PullQuery) → IsFramed {p = p} R (Api.pull account q)
Handles {p} R allowed fw Routes.snapshot_put =
    (account : Uuid)
    → allowed account
    → (b : Api.SnapshotReq) → IsFramed {p = p} R (Api.put_snapshot account b)
Handles {p} R allowed fw Routes.snapshot_get =
    (account : Uuid) → allowed account → IsFramed {p = p} R (Api.get_snapshot account)
Handles R allowed fw Routes.sync_ws = Unit {0}

module _ {p : Platform} (R : World p → World p → Type 0) (frame : IsFrame R)
    (allowed : Uuid → Type 0) where
  IsFramed-lift :
      {B : Type 0} (r : Result ℕ B) (k : B → Exec p ℕ Response)
      → ((b : B) → IsFramed R (k b))
      → IsFramed R (lift r >>= k)
  IsFramed-lift (ok b) k held w = held b w
  IsFramed-lift (err s) k held w = frame.same w

  handler-world :
      {A : Type 0} (g : A → Response) (h : Exec p StatusCode A) (w : World p)
      → ((map_err code h >>= λ a. pure (g a)) w).1 ≡ (h w).1
  handler-world g h w = elim (Result-cases (h w).0) [
    | inl (a, e) ↦ ground arith
    | inr (s, e) ↦ ground arith
  ]

  IsFramed-handler :
      {A : Type 0} (g : A → Response) (h : Exec p StatusCode A)
      → IsFramed R h
      → IsFramed R (map_err code h >>= λ a. pure (g a))
  IsFramed-handler g h held w = subst (R w) (sym (handler-world g h w)) (held w)

  IsFramed-body :
      {A B : Type 0} (g : A → Response) (r : Result ℕ B) (h : B → Exec p StatusCode A)
      → ((b : B) → IsFramed R (h b))
      → IsFramed R (lift r >>= λ b. map_err code (h b) >>= λ a. pure (g a))
  IsFramed-body g r h held = IsFramed-lift r _ (λ b. IsFramed-handler g (h b) (held b))

  module _ (fw : Framework)
      (extractor : (authorization : Option String)
        → IsFramed {p = p} R (Auth.from_request_parts authorization)) where
    IsFramed-own :
        (authorization : Option String) (k : Uuid → Exec p ℕ Response)
        → ((account : Uuid) → allowed account → IsFramed R (k account))
        → (w : World p) → IsPermitted allowed authorization w
        → R w (authenticated fw authorization k w).1
    IsFramed-own authorization k held w permitted =
        let u = (Auth.from_request_parts authorization w).1 in
        elim (Result-cases (Auth.from_request_parts authorization w).0) [
          | inl (account, e) ↦
              let last : (authenticated fw authorization k w).1 ≡ (k account u).1 = ground arith in
              subst (R w) (sym last) (
                frame.joined w u (k account u).1 (extractor authorization w)
                  (held account (permitted account e) u))
          | inr (c, e) ↦
              let last : (authenticated fw authorization k w).1 ≡ u = ground arith in
              subst (R w) (sym last) (extractor authorization w)
        ]

    metrics-world : (req : Request) (w : World p) → (serve fw Routes.metrics "" req w).1 ≡ w
    unfolding serve
    metrics-world req w =
        elim (Result-cases
          (render_metrics (fw.rendered w.metrics) fw.metrics_token req.authorization)) [
            | inl (text, e) ↦ ground arith
            | inr (c, e) ↦ ground arith
          ]

    pub serve-IsFramed :
        (e : Endpoint) (id : String) (req : Request)
        → Handles R allowed fw e
        → (w : World p) → IsPermitted allowed req.authorization w
        → R w (serve fw e id req w).1
    unfolding serve
    serve-IsFramed Routes.healthz id req h w permitted =
        IsFramed-handler (λ r. reply 200 (App.health r)) (Health.healthz fw.core_version) h w
    serve-IsFramed Routes.readyz id req h w permitted =
        IsFramed-handler (λ r. reply 200 (App.ready r)) (Health.readyz) h w
    serve-IsFramed Routes.metrics id req h w permitted =
        subst (R w) (sym (metrics-world req w)) (frame.same w)
    serve-IsFramed Routes.register_start id req h w permitted =
        IsFramed-body (λ r. reply 200 (App.message r)) (fw.register_start_req req.body)
          Auth.register_start h w
    serve-IsFramed Routes.register_finish id req h w permitted =
        IsFramed-body (λ r. reply (code r) App.empty) (fw.register_finish_req req.body)
          Auth.register_finish h w
    serve-IsFramed Routes.login_start id req h w permitted =
        IsFramed-body (λ r. App.login_reply r) (fw.login_start_req req.body) Auth.login_start h w
    serve-IsFramed Routes.login_finish id req h w permitted =
        IsFramed-body (λ r. reply 200 (App.session r)) (fw.login_finish_req req.body)
          Auth.login_finish h w
    serve-IsFramed Routes.me id req h w permitted =
        IsFramed-own req.authorization _
          (λ account may.
            IsFramed-handler (λ r. reply 200 (App.account r)) (Auth.me account) (h account may))
          w permitted
    serve-IsFramed Routes.pairing_deposit id req h w permitted =
        IsFramed-own req.authorization _
          (λ account may.
            IsFramed-body (λ r. reply (code r) App.empty) (fw.deposit_req req.body)
              (Pairing.deposit id) (h id))
          w permitted
    serve-IsFramed Routes.pairing_fetch id req h w permitted =
        IsFramed-handler (λ r. reply 200 (App.pairing r)) (Pairing.fetch id) (h id) w
    serve-IsFramed Routes.vault_store id req h w permitted =
        IsFramed-own req.authorization _
          (λ account may.
            IsFramed-body (λ r. reply (code r) App.empty) (fw.store_req req.body)
              (Vault.store account) (h account may))
          w permitted
    serve-IsFramed Routes.vault_fetch id req h w permitted =
        IsFramed-own req.authorization _
          (λ account may.
            IsFramed-handler (λ r. reply 200 (App.vault_key r)) (Vault.fetch account)
              (h account may))
          w permitted
    serve-IsFramed Routes.device_list id req h w permitted =
        IsFramed-own req.authorization _
          (λ account may.
            IsFramed-handler (λ r. reply 200 (App.devices r)) (Devices.list account)
              (h account may))
          w permitted
    serve-IsFramed Routes.device_register id req h w permitted =
        IsFramed-own req.authorization _
          (λ account may.
            IsFramed-body (λ r. reply (code r.0) (App.device r.1)) (fw.register_req req.body)
              (Devices.register account) (h account may))
          w permitted
    serve-IsFramed Routes.device_revoke id req h w permitted =
        IsFramed-own req.authorization _
          (λ account may.
            IsFramed-handler (λ r. reply (code r) App.empty) (Devices.revoke account id)
              (h account may id))
          w permitted
    serve-IsFramed Routes.device_rename id req h w permitted =
        IsFramed-own req.authorization _
          (λ account may.
            IsFramed-body (λ r. reply (code r) App.empty) (fw.rename_req req.body)
              (Devices.rename account id) (h account may id))
          w permitted
    serve-IsFramed Routes.device_challenge id req h w permitted =
        IsFramed-body (λ r. reply 200 (App.challenge r)) (fw.challenge_req req.body)
          AuthApi.challenge h w
    serve-IsFramed Routes.device_verify id req h w permitted =
        IsFramed-body (λ r. reply 200 (App.device_session r)) (fw.verify_req req.body)
          AuthApi.verify h w
    serve-IsFramed Routes.sync_push id req h w permitted =
        IsFramed-own req.authorization _
          (λ account may.
            IsFramed-body (λ r. reply (code r.0) (App.pushed r.1)) (fw.push_req req.body)
              (Api.push account) (h account may))
          w permitted
    serve-IsFramed Routes.sync_pull id req h w permitted =
        IsFramed-own req.authorization _
          (λ account may.
            IsFramed-body (λ r. reply 200 (App.pulled r)) (fw.pull_query req.query)
              (Api.pull account) (h account may))
          w permitted
    serve-IsFramed Routes.snapshot_put id req h w permitted =
        IsFramed-own req.authorization _
          (λ account may.
            IsFramed-body (λ r. reply 200 (App.published r)) (fw.snapshot_req req.body)
              (Api.put_snapshot account) (h account may))
          w permitted
    serve-IsFramed Routes.snapshot_get id req h w permitted =
        IsFramed-own req.authorization _
          (λ account may.
            IsFramed-handler (λ r. reply 200 (App.snapshot r)) (Api.get_snapshot account)
              (h account may))
          w permitted
    serve-IsFramed Routes.sync_ws id req h w permitted =
        IsFramed-own req.authorization _
          (λ account may. IsFramed-lift (fw.upgrade req) _ (λ u w. frame.same w)) w permitted

    -- The recording of a request keeps the relation as well.
    pub respond-frame :
        ((e : Endpoint) → Handles R allowed fw e)
        → ((w : World p) (m : Metrics) → R w (record w { metrics = m }))
        → (req : Request) (w : World p) → IsPermitted allowed req.authorization w
        → R w (respond fw req w).1
    unfolding respond
    respond-frame handled recorded req w permitted =
        let v = (respond fw req w).1 in
        elim (Option-cases (fw.matched req.path)) [
          | inl unknown ↦ let last : v ≡ w = ground arith in subst (R w) (sym last) (frame.same w)
          | inr ((pattern, id), known) ↦ elim (Option-cases (route_of pattern)) [
            | inl unrouted ↦
                let last : v ≡ w = ground arith in subst (R w) (sym last) (frame.same w)
            | inr (route, routed) ↦ elim (Option-cases (on_method req.method route)) [
              | inl lacks ↦
                  let last : v ≡ record w { metrics = v.metrics } = ground arith in
                  subst (R w) (sym last) (recorded w v.metrics)
              | inr (e, has) ↦
                  let u = (serve fw e id req w).1 in
                  let last : v ≡ record u { metrics = v.metrics } = ground arith in
                  subst (R w) (sym last) (
                    frame.joined w u (record u { metrics = v.metrics })
                      (serve-IsFramed e id req (handled e) w permitted) (recorded u v.metrics))
            ]
          ]
        ]
