-- ===== src/Server/Tallied.antt =====
-- Theorems on what /metrics can tell of a request: `track_metrics` and the counters of
-- src/observability.rs against the answers of the application of src/lib.rs.
use realm_guard_server.Prelude.{
  ℕ, ◌≤◌, ◌≡◌, ◌≢◌, Option, refl, ◌⊎◌, inl, inr, String, Bool, true, false, some, length, arith,
}
use realm_guard_server.Platform.{Platform, Uuid}
use realm_guard_server.Result.{ok, err, Result-cases, created, bad_request, conflict}
use realm_guard_server.Metrics.{
  Metrics, record_request, record_delta_pushed, record_deltas_pulled, record_snapshot_created,
  record_login,
}
use realm_guard_server.World.{World, pure}
use realm_guard_server.Auth.Api as Auth
use realm_guard_server.Relay.Vault
use realm_guard_server.Relay.Pairing
use realm_guard_server.Devices.Api as Devices
use realm_guard_server.Devices.AuthApi
use realm_guard_server.Sync.Api
use realm_guard_server.Server.Health
use realm_guard_server.Server.Verdicts.{verdict_of, refusal_judged}
use realm_guard_server.Server.Counts
use realm_guard_server.Server.Counts.{on_success}
use realm_guard_server.Server.MetricsRoute.{render_metrics}
use realm_guard_server.Server.Routes.{Method, Endpoint, Route, on_method, route_of}
use realm_guard_server.Server.Routes
use realm_guard_server.Server.App
use realm_guard_server.Server.App.{
  code, Request, Content, Response, Framework, reply, into_response, authenticated, serve, respond,
}
use realm_guard_server.Server.Tally.{
  tally, content_tally, is_by_content, by_content, IsTallied, open_endpoint, open_body,
  own_endpoint, own_body, uncounted, IsTallied-authenticated, IsTallied-lift,
}

login_tally :
    (a : Auth.LoginStartReply) (m : Metrics)
    → content_tally (App.login_reply a).content m ≡ Counts.on_lockout a m
login_tally (Auth.started r) m = refl
login_tally (Auth.too_many_requests seconds) m = refl

register_finish-answers :
    {p : Platform} (body : Auth.RegisterFinishReq) (w : World p)
    → ((Auth.register_finish body w).0 ≡ ok created)
      ⊎ (((Auth.register_finish body w).0 ≡ err bad_request)
          ⊎ ((Auth.register_finish body w).0 ≡ err conflict))
unfolding Auth.register_finish Auth.decode
register_finish-answers body w = ground arith

-- What OPAQUE says of the login that a request is to finish.
abbrev pub judged : {p : Platform} → Framework → Request → World p → Option Bool
judged fw req w = verdict_of w (fw.login_finish_req req.body)

-- How the end of a login is counted, `after` the recording of its request.
abbrev pub IsCountedLogin :
    {p : Platform}
    → Framework
    → Request
    → World p
    → Response
    → Metrics
    → (Metrics → Metrics)
    → Type 0
IsCountedLogin fw req w r after recorded =
    ((after ≡ recorded (content_tally r.content w.metrics))
      × ¬ ((r.status ≡ 401) × (judged fw req w ≡ some false)))
    ⊎ (((r.status ≡ 401)
          × (r.content ≡ App.empty)
          × (judged fw req w ≡ some false)
          × (after ≡ recorded (record_login false w.metrics)))
        ⊎ ((r.status ≡ 500)
            × (r.content ≡ App.empty)
            × (judged fw req w ≡ some true)
            × (after ≡ recorded (record_login true w.metrics))))

module _ (p : Platform) (fw : Framework) where
  metrics_tallied : (req : Request) → IsTallied {p = p} by_content (serve fw Routes.metrics "" req)
  unfolding IsTallied serve
  metrics_tallied req w =
      elim (Result-cases
        (render_metrics (fw.rendered w.metrics) fw.metrics_token req.authorization)) [
          | inl (text, e) ↦ ground arith
          | inr (c, e) ↦ ground arith
        ]

  upgraded :
      (account : Uuid) → IsTallied {p = p} by_content (pure (reply 101 (App.upgraded account)))
  unfolding IsTallied
  upgraded account w = refl

  registered :
      (id : String) (req : Request)
      → ((text : String) (s : ℕ) → fw.register_finish_req text ≡ err s → 400 ≤ s)
      → IsTallied {p = p} (tally Routes.register_finish) (serve fw Routes.register_finish id req)
  unfolding IsTallied serve
  registered id req refusals w = elim (Result-cases (fw.register_finish_req req.body)) [
    | inr (s, e) ↦ let high = refusals req.body s e in ground arith
    | inl (body, e) ↦
        let counts = Counts.metrics-register_finish w body in
        elim (register_finish-answers body w) [
          | inl good ↦ ground arith
          | inr (inl bad) ↦ ground arith
          | inr (inr bad) ↦ ground arith
        ]
  ]

  login_finished :
      (id : String) (req : Request) (w : World p)
      → let (r, w') = serve fw Routes.login_finish id req w in
        IsCountedLogin fw req w (into_response r) w'.metrics (λ m. m)
  unfolding serve
  login_finished id req w = elim (Result-cases (fw.login_finish_req req.body)) [
    | inr (s, e) ↦ inl (ground arith, λ h. ground arith)
    | inl (body, e) ↦ elim (Result-cases (Auth.login_finish body w).0) [
      | inl (r, good) ↦
          inl (ground (arith, Counts.session_counted w body r good), λ h. ground arith)
      | inr (c, bad) ↦ elim (refusal_judged w body c bad) [
        | inl (wrong, judged, counted) ↦
            inr (inl (ground arith, ground arith, ground arith, ground arith))
        | inr (inl (down, judged, counted)) ↦
            inr (inr (ground arith, ground arith, ground arith, ground arith))
        | inr (inr (other, none_counted)) ↦ inl (ground arith, λ h. ground (arith, other))
      ]
    ]
  ]

  serve-IsTallied :
      (e : Endpoint) (id : String) (req : Request)
      → is_by_content e ≡ true
      → IsTallied {p = p} (tally e) (serve fw e id req)
  unfolding serve
  serve-IsTallied Routes.healthz id req h =
      open_endpoint fw (λ a m. m) (λ r. reply 200 (App.health r)) (λ a m. refl)
        (Health.healthz fw.core_version)
        (uncounted (Health.healthz fw.core_version) λ w. Counts.metrics-healthz w fw.core_version)
  serve-IsTallied Routes.readyz id req h =
      open_endpoint fw (λ a m. m) (λ r. reply 200 (App.ready r)) (λ a m. refl) Health.readyz
        (uncounted Health.readyz Counts.metrics-readyz)
  serve-IsTallied Routes.metrics id req h = metrics_tallied req
  serve-IsTallied Routes.register_start id req h =
      open_body fw (λ a m. m) (λ r. reply 200 (App.message r)) (λ a m. refl)
        (fw.register_start_req req.body) Auth.register_start
        (λ b. uncounted (Auth.register_start b) λ w. Counts.metrics-register_start w b)
  serve-IsTallied Routes.login_start id req h =
      open_body fw Counts.on_lockout App.login_reply login_tally (fw.login_start_req req.body)
        Auth.login_start (λ b w. Counts.metrics-login_start w b)
  serve-IsTallied Routes.me id req h =
      own_endpoint fw (λ a m. m) (λ r. reply 200 (App.account r)) (λ a m. refl) req.authorization
        Auth.me (λ account. uncounted (Auth.me account) λ w. Counts.metrics-me w account)
  serve-IsTallied Routes.pairing_deposit id req h =
      own_body fw (λ a m. m) (λ r. reply (code r) App.empty) (λ a m. refl) req.authorization
        (fw.deposit_req req.body) (λ account. Pairing.deposit id)
        (λ account b. uncounted (Pairing.deposit id b) λ w. Counts.metrics-deposit w id b)
  serve-IsTallied Routes.pairing_fetch id req h =
      open_endpoint fw (λ a m. m) (λ r. reply 200 (App.pairing r)) (λ a m. refl) (Pairing.fetch id)
        (uncounted (Pairing.fetch id) λ w. Counts.metrics-fetch w id)
  serve-IsTallied Routes.vault_store id req h =
      own_body fw (λ a m. m) (λ r. reply (code r) App.empty) (λ a m. refl) req.authorization
        (fw.store_req req.body) Vault.store
        (λ account b. uncounted (Vault.store account b) λ w. Counts.metrics-vault_store w account b)
  serve-IsTallied Routes.vault_fetch id req h =
      own_endpoint fw (λ a m. m) (λ r. reply 200 (App.vault_key r)) (λ a m. refl) req.authorization
        Vault.fetch
        (λ account. uncounted (Vault.fetch account) λ w. Counts.metrics-vault_fetch w account)
  serve-IsTallied Routes.device_list id req h =
      own_endpoint fw (λ a m. m) (λ r. reply 200 (App.devices r)) (λ a m. refl) req.authorization
        Devices.list
        (λ account. uncounted (Devices.list account) λ w. Counts.metrics-list w account)
  serve-IsTallied Routes.device_register id req h =
      own_body fw (λ a m. m) (λ r. reply (code r.0) (App.device r.1)) (λ a m. refl)
        req.authorization (fw.register_req req.body) Devices.register
        (λ account b.
          uncounted (Devices.register account b) λ w. Counts.metrics-register w account b)
  serve-IsTallied Routes.device_revoke id req h =
      own_endpoint fw (λ a m. m) (λ r. reply (code r) App.empty) (λ a m. refl) req.authorization
        (λ account. Devices.revoke account id)
        (λ account. uncounted (Devices.revoke account id) λ w. Counts.metrics-revoke w account id)
  serve-IsTallied Routes.device_rename id req h =
      own_body fw (λ a m. m) (λ r. reply (code r) App.empty) (λ a m. refl) req.authorization
        (fw.rename_req req.body) (λ account. Devices.rename account id)
        (λ account b.
          uncounted (Devices.rename account id b) λ w. Counts.metrics-rename w account id b)
  serve-IsTallied Routes.device_challenge id req h =
      open_body fw (λ a m. m) (λ r. reply 200 (App.challenge r)) (λ a m. refl)
        (fw.challenge_req req.body) AuthApi.challenge
        (λ b. uncounted (AuthApi.challenge b) λ w. Counts.metrics-challenge w b)
  serve-IsTallied Routes.device_verify id req h =
      open_body fw (λ a m. m) (λ r. reply 200 (App.device_session r)) (λ a m. refl)
        (fw.verify_req req.body) AuthApi.verify
        (λ b. uncounted (AuthApi.verify b) λ w. Counts.metrics-verify w b)
  serve-IsTallied Routes.sync_push id req h =
      own_body fw (λ a. record_delta_pushed) (λ r. reply (code r.0) (App.pushed r.1)) (λ a m. refl)
        req.authorization (fw.push_req req.body) Api.push
        (λ account b w. Counts.metrics-push w account b)
  serve-IsTallied Routes.sync_pull id req h =
      own_body fw (λ a. record_deltas_pulled (length a.deltas)) (λ r. reply 200 (App.pulled r))
        (λ a m. refl) req.authorization (fw.pull_query req.query) Api.pull
        (λ account b w. Counts.metrics-pull w account b)
  serve-IsTallied Routes.snapshot_put id req h =
      own_body fw (λ a. record_snapshot_created) (λ r. reply 200 (App.published r)) (λ a m. refl)
        req.authorization (fw.snapshot_req req.body) Api.put_snapshot
        (λ account b w. Counts.metrics-put_snapshot w account b)
  serve-IsTallied Routes.snapshot_get id req h =
      own_endpoint fw (λ a m. m) (λ r. reply 200 (App.snapshot r)) (λ a m. refl) req.authorization
        Api.get_snapshot
        (λ account. uncounted (Api.get_snapshot account) λ w. Counts.metrics-get_snapshot w account)
  serve-IsTallied Routes.sync_ws id req h =
      IsTallied-authenticated by_content (λ s m. refl) fw req.authorization _
        (λ account.
          IsTallied-lift by_content (λ s m. refl) (fw.upgrade req) _ (λ u. upgraded account))
  serve-IsTallied Routes.register_finish id req h = absurd (ground arith)
  serve-IsTallied Routes.login_finish id req h = absurd (ground arith)

-- How an endpoint is counted.
counted-cases :
    (e : Endpoint)
    → (is_by_content e ≡ true) ⊎ ((e ≡ Routes.register_finish) ⊎ (e ≡ Routes.login_finish))
counted-cases Routes.register_finish = inr (inl refl)
counted-cases Routes.login_finish = inr (inr refl)
counted-cases e = inl refl

-- What is recorded of a request to a route, whatever the services answer. It is recorded once, under
-- its method, the pattern of the route and the status of the answer. Where it does not finish a login,
-- the counters beside that move as the answer says: by one for a delta stored, a snapshot accepted, an
-- account registered or a login refused for the lock, by the deltas delivered for a pull, and not at
-- all for any other answer. Where it finishes a login, a failure is counted exactly for an answer of
-- 401 where OPAQUE does not accept the finalization for the flow that waits, a success for every
-- session that is answered, and a success may also be counted for an answer of 500 where OPAQUE does
-- accept it; and nothing else is counted. Of the framework it is assumed that it refuses the body of a
-- registration by no status under 400.
pub respond-tallied :
    {p : Platform} (fw : Framework) (req : Request) (w : World p) (pattern id : String)
    (route : Route) (e : Endpoint)
    → fw.matched req.path ≡ some (pattern, id)
    → route_of pattern ≡ some route
    → on_method req.method route ≡ some e
    → ((text : String) (s : ℕ) → fw.register_finish_req text ≡ err s → 400 ≤ s)
    → let (r, w') = respond fw req w in
      let recorded = record_request (fw.method_name req.method) pattern r.status in
      ((e ≢ Routes.login_finish) × (w'.metrics ≡ recorded (tally e r w.metrics)))
      ⊎ ((e ≡ Routes.login_finish) × IsCountedLogin fw req w r w'.metrics recorded)
unfolding respond IsTallied
respond-tallied {p} fw req w pattern id route e path known method refusals =
    elim (counted-cases e) [
      | inl plain ↦
          let moved = serve-IsTallied p fw e id req plain w in inl (λ k. ground arith, ground arith)
      | inr (inl k) ↦
          let moved = registered p fw id req refusals w in inl (λ j. ground arith, ground arith)
      | inr (inr k) ↦ inr (
        k,
        elim (login_finished p fw id req w) [
          | inl (moved, other) ↦ inl (ground arith, λ h. other (ground arith))
          | inr (inl (status, told, wrong, moved)) ↦
              inr (inl (ground arith, ground arith, wrong, ground arith))
          | inr (inr (status, told, right, moved)) ↦
              inr (inr (ground arith, ground arith, right, ground arith))
        ],
      )
    ]
