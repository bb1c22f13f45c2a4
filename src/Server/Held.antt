-- ===== src/Server/Held.antt =====
-- The endpoints of src/lib.rs and the session of one token: they leave it alone.
use realm_guard_server.Prelude.{String, refl, arith}
use realm_guard_server.Platform.{Platform}
use realm_guard_server.World.{World}
use realm_guard_server.Server.Routes.{Endpoint}
use realm_guard_server.Server.Routes
use realm_guard_server.Server.App.{Request, Framework, respond}
use realm_guard_server.Server.Frame.{IsFrame, Handles, respond-frame}
use realm_guard_server.Server.Holding.Logins
use realm_guard_server.Server.Holding.Keyed
use realm_guard_server.Server.Holding.Calm
use realm_guard_server.Server.Holding.{IsFresh, HasKept, HasKept-trans}

module _ (p : Platform) (token : String) where
  -- The session is left alone, unless its token is drawn anew.
  abbrev HasHeld : World p → World p → Type 0
  HasHeld w v = IsFresh p token w → HasKept p token w v

  pub IsFresh-HasKept :
      (w v : World p) → IsFresh p token w → HasKept p token w v → IsFresh p token v
  IsFresh-HasKept w v h k n le = h n (omega (arith, k.1))

  HasHeld-IsFrame : IsFrame HasHeld
  HasHeld-IsFrame = record {
    same = λ w h. (refl, omega arith, refl);
    joined = λ u v w h k f. HasKept-trans p token u v w (h f) (k (IsFresh-HasKept u v f (h f)));
  }

  module _ (fw : Framework) where
    handled : (e : Endpoint) → Handles HasHeld (λ _. Unit {0}) fw e
    handled Routes.healthz = λ w f. Calm.healthz-HasKept p token fw.core_version w
    handled Routes.readyz = λ w f. Calm.readyz-HasKept p token w
    handled Routes.metrics = tt
    handled Routes.register_start = λ b w f. Calm.register_start-HasKept p token b w
    handled Routes.register_finish = λ b w f. Calm.register_finish-HasKept p token b w
    handled Routes.login_start = λ b w f. Logins.login_start-HasKept p token b w
    handled Routes.login_finish = λ b w f. Logins.login_finish-HasKept p token b w f
    handled Routes.me = λ account _ w f. Calm.me-HasKept p token account w
    handled Routes.pairing_deposit = λ id b w f. Keyed.deposit-HasKept p token id b w
    handled Routes.pairing_fetch = λ id w f. Keyed.pairing_fetch-HasKept p token id w
    handled Routes.vault_store = λ account _ b w f. Calm.store-HasKept p token account b w
    handled Routes.vault_fetch = λ account _ w f. Calm.vault_fetch-HasKept p token account w
    handled Routes.device_list = λ account _ w f. Calm.list-HasKept p token account w
    handled Routes.device_register = λ account _ b w f. Calm.register-HasKept p token account b w
    handled Routes.device_revoke = λ account _ id w f. Calm.revoke-HasKept p token account id w
    handled Routes.device_rename = λ account _ id b w f. Calm.rename-HasKept p token account id b w
    handled Routes.device_challenge = λ b w f. Keyed.challenge-HasKept p token b w
    handled Routes.device_verify = λ b w f. Keyed.verify-HasKept p token b w f
    handled Routes.sync_push = λ account _ b w f. Calm.push-HasKept p token account b w
    handled Routes.sync_pull = λ account _ q w f. Calm.pull-HasKept p token account q w
    handled Routes.snapshot_put = λ account _ b w f. Calm.put_snapshot-HasKept p token account b w
    handled Routes.snapshot_get = λ account _ w f. Calm.get_snapshot-HasKept p token account w
    handled Routes.sync_ws = tt

    pub respond-HasKept :
        (req : Request) (w : World p) → IsFresh p token w → HasKept p token w (respond fw req w).1
    respond-HasKept req w =
        respond-frame HasHeld HasHeld-IsFrame (λ _. Unit {0}) fw
          (λ authorization u f. Calm.from_request_parts-HasKept p token authorization u) handled
          (λ u m f. (refl, omega arith, refl)) req w (λ account named. tt)
