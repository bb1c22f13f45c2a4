-- ===== src/Server/Counts.antt =====
-- What the handlers count: the calls of src/observability.rs in each handler, against its answer.
use realm_guard_server.Prelude.{
  String, ◌≡◌, refl, ◌⊎◌, inl, inr, ap, Option, List, [], ◌∷◌, suc, true, false, length, map, arith,
}
use realm_guard_server.Platform.{Platform, Uuid, Bytes}
use realm_guard_server.Result.{Result, ok, err, StatusCode, Result-cases}
use realm_guard_server.Metrics.{
  Metrics, record_delta_pushed, record_deltas_pulled, record_snapshot_created, record_registration,
  record_login, record_login_lockout,
}
use realm_guard_server.World.{World, redis}
use realm_guard_server.Auth.Sessions.{take_login_flow}
use realm_guard_server.Auth.RateLimit.{locked_for, record_failure}
use realm_guard_server.Auth.Api as Auth
use realm_guard_server.Relay.Vault
use realm_guard_server.Relay.Pairing
use realm_guard_server.Devices.Api as Devices
use realm_guard_server.Devices.AuthApi
use realm_guard_server.Sync.Deltas.{seq_payload, select_since}
use realm_guard_server.Sync.Api
use realm_guard_server.Server.Health

-- Counted if the handler succeeds.
abbrev pub on_success :
    {A : Type 0} → (A → Metrics → Metrics) → Result StatusCode A → Metrics → Metrics
on_success f (ok a) m = f a m
on_success f (err e) m = m

abbrev pub on_lockout : Auth.LoginStartReply → Metrics → Metrics
on_lockout (Auth.started r) m = m
on_lockout (Auth.too_many_requests seconds) m = record_login_lockout m

length-map : {A B : Type 0} (f : A → B) (xs : List A) → length (map f xs) ≡ length xs
length-map f [] = refl
length-map f (x ∷ xs) = ap suc (length-map f xs)

module _ {p : Platform} (w : World p) where
  pub metrics-from_request_parts :
      (authorization : Option String)
      → (Auth.from_request_parts authorization w).1.metrics ≡ w.metrics
  unfolding Auth.from_request_parts
  metrics-from_request_parts authorization = ground arith

  pub metrics-healthz : (v : String) → (Health.healthz {p = p} v w).1.metrics ≡ w.metrics
  unfolding Health.healthz
  metrics-healthz v = refl

  pub metrics-readyz : (Health.readyz w).1.metrics ≡ w.metrics
  unfolding Health.readyz
  metrics-readyz = ground arith

  pub metrics-me : (account : Uuid) → (Auth.me account w).1.metrics ≡ w.metrics
  unfolding Auth.me
  metrics-me account = refl

  pub metrics-register_start :
      (body : Auth.RegisterStartReq) → (Auth.register_start body w).1.metrics ≡ w.metrics
  unfolding Auth.register_start
  metrics-register_start body = ground arith

  pub metrics-register_finish :
      (body : Auth.RegisterFinishReq)
      → (Auth.register_finish body w).1.metrics
        ≡ on_success (λ _. record_registration) (Auth.register_finish body w).0 w.metrics
  unfolding Auth.register_finish
  metrics-register_finish body = ground arith

  pub metrics-push :
      (account : Uuid) (body : Api.PushReq)
      → (Api.push account body w).1.metrics
        ≡ on_success (λ _. record_delta_pushed) (Api.push account body w).0 w.metrics
  unfolding Api.push
  metrics-push account body = ground arith

  pub metrics-put_snapshot :
      (account : Uuid) (body : Api.SnapshotReq)
      → (Api.put_snapshot account body w).1.metrics
        ≡ on_success (λ _. record_snapshot_created) (Api.put_snapshot account body w).0 w.metrics
  unfolding Api.put_snapshot
  metrics-put_snapshot account body = ground arith

  pub metrics-get_snapshot : (account : Uuid) → (Api.get_snapshot account w).1.metrics ≡ w.metrics
  unfolding Api.get_snapshot
  metrics-get_snapshot account = ground arith

  pub metrics-pull :
      (account : Uuid) (query : Api.PullQuery)
      → (Api.pull account query w).1.metrics
        ≡ on_success
            (λ r. record_deltas_pulled (length r.deltas))
            (Api.pull account query w).0
            w.metrics
  unfolding Api.pull
  metrics-pull account query =
      let since = Api.normalize_since query.since in
      let limit = Api.normalize_limit query.limit in
      let rows = map seq_payload (select_since account since limit w.db.deltas) in
      ground (arith, length-map (Api.delta_resp p) rows)

  pub metrics-redis : (redis w).1.metrics ≡ w.metrics
  unfolding redis
  metrics-redis = ground arith

  pub metrics-locked_for : (username : String) → (locked_for username w).1.metrics ≡ w.metrics
  unfolding locked_for
  metrics-locked_for username = ground arith

  pub metrics-record_failure :
      (username : String) → (record_failure username w).1.metrics ≡ w.metrics
  unfolding record_failure
  metrics-record_failure username = ground arith

  pub metrics-start_flow :
      (username : String) (request : Bytes)
      → (Auth.start_flow username request w).1.metrics
        ≡ on_success on_lockout (Auth.start_flow username request w).0 w.metrics
  unfolding Auth.start_flow Auth.open_flow
  metrics-start_flow username request = ground arith

module _ {p : Platform} (w : World p) where
  pub metrics-login_start :
      (body : Auth.LoginStartReq)
      → (Auth.login_start body w).1.metrics
        ≡ on_success on_lockout (Auth.login_start body w).0 w.metrics
  unfolding Auth.login_start
  metrics-login_start body =
      let u = (redis w).1 in
      let v = (locked_for body.username u).1 in
      let connecting = metrics-redis w in
      let asking = metrics-locked_for u body.username in
      elim (Result-cases (Auth.decode p body.request)) [
        | inr (e, bad) ↦ ground arith
        | inl (request, good) ↦
            let flow = metrics-start_flow v body.username request in ground arith
      ]

  pub session_counted :
      (body : Auth.LoginFinishReq) (r : Auth.LoginFinishResp)
      → (Auth.login_finish body w).0 ≡ ok r
      → (Auth.login_finish body w).1.metrics ≡ record_login true w.metrics
  unfolding Auth.login_finish Auth.open_session Auth.refuse_login take_login_flow
  session_counted body r h = ground arith

  pub refusal_counted :
      (body : Auth.LoginFinishReq) (e : StatusCode)
      → (Auth.login_finish body w).0 ≡ err e
      → ((Auth.login_finish body w).1.metrics ≡ w.metrics)
        ⊎ (((Auth.login_finish body w).1.metrics ≡ record_login true w.metrics)
            ⊎ ((Auth.login_finish body w).1.metrics ≡ record_login false w.metrics))
  unfolding Auth.login_finish Auth.open_session Auth.refuse_login take_login_flow
  refusal_counted body e h = ground arith

  pub metrics-deposit :
      (id : String) (body : Pairing.DepositReq) → (Pairing.deposit id body w).1.metrics ≡ w.metrics
  unfolding Pairing.deposit
  metrics-deposit id body = ground arith

  pub metrics-fetch : (id : String) → (Pairing.fetch id w).1.metrics ≡ w.metrics
  unfolding Pairing.fetch
  metrics-fetch id = ground arith

  pub metrics-vault_store :
      (account : Uuid) (body : Vault.StoreReq) → (Vault.store account body w).1.metrics ≡ w.metrics
  unfolding Vault.store
  metrics-vault_store account body = ground arith

  pub metrics-vault_fetch : (account : Uuid) → (Vault.fetch account w).1.metrics ≡ w.metrics
  unfolding Vault.fetch
  metrics-vault_fetch account = ground arith

  pub metrics-register :
      (account : Uuid) (body : Devices.RegisterReq)
      → (Devices.register account body w).1.metrics ≡ w.metrics
  unfolding Devices.register
  metrics-register account body = ground arith

  pub metrics-list : (account : Uuid) → (Devices.list account w).1.metrics ≡ w.metrics
  unfolding Devices.list
  metrics-list account = ground arith

  pub metrics-rename :
      (account : Uuid) (id : String) (body : Devices.RenameReq)
      → (Devices.rename account id body w).1.metrics ≡ w.metrics
  unfolding Devices.rename
  metrics-rename account id body = ground arith

  pub metrics-revoke :
      (account : Uuid) (id : String) → (Devices.revoke account id w).1.metrics ≡ w.metrics
  unfolding Devices.revoke
  metrics-revoke account id = ground arith

  pub metrics-challenge :
      (body : AuthApi.ChallengeReq) → (AuthApi.challenge body w).1.metrics ≡ w.metrics
  unfolding AuthApi.challenge
  metrics-challenge body = ground arith

  pub metrics-verify : (body : AuthApi.VerifyReq) → (AuthApi.verify body w).1.metrics ≡ w.metrics
  unfolding AuthApi.verify AuthApi.open_session
  metrics-verify body = ground arith
