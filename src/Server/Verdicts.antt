-- ===== src/Server/Verdicts.antt =====
-- What `login_finish` of src/auth_api.rs counts of a login that ends with no session, against what OPAQUE
-- says of the flow that waits in Redis.
use realm_guard_server.Prelude.{ℕ, ◌≡◌, ◌⊎◌, Bool, true, false, Option, none, some, arith}
use realm_guard_server.Platform.{Platform, Bytes, LoginFlow, live}
use realm_guard_server.Result.{
  Result, ok, err, Failure, StatusCode, unauthorized, internal_server_error,
}
use realm_guard_server.Metrics.{record_login}
use realm_guard_server.World.{World, redis}
use realm_guard_server.Cache.{converted, get_del}
use realm_guard_server.Auth.Sessions.{login_key, take_login_flow}
use realm_guard_server.Auth.RateLimit.{record_failure}
use realm_guard_server.Auth.Api as Auth

abbrev of_flow : Platform → Bytes → Option LoginFlow → Option Bool
of_flow p finalization none = none
of_flow p finalization (some flow) = some (p.server_login_finish flow.state finalization)

abbrev of_waiting : Platform → Bytes → Result Failure (Option Bytes) → Option Bool
of_waiting p finalization (ok (some blob)) = of_flow p finalization (p.decode_flow blob)
of_waiting p finalization _ = none

abbrev of_finalization :
    (p : Platform) → Result StatusCode Bytes → Result Failure (Option Bytes) → Option Bool
of_finalization p (ok finalization) flow = of_waiting p finalization flow
of_finalization p (err e) flow = none

-- Whether OPAQUE accepts the finalization of the request for the flow that it names; none where the
-- finalization does not decode or no such flow waits.
abbrev pub verdict : {p : Platform} → Auth.LoginFinishReq → World p → Option Bool
verdict {p} body w =
    of_finalization p (Auth.decode p body.finalization)
      (converted p.redis.to_bytes (live w.now (p.redis.entry w.cache (login_key body.flow_id))))

-- Of a body that the framework parsed.
abbrev pub verdict_of : {p : Platform} → World p → Result ℕ Auth.LoginFinishReq → Option Bool
verdict_of w (ok body) = verdict body w
verdict_of w (err s) = none

module _ {p : Platform} (w : World p) (body : Auth.LoginFinishReq) where
  -- A login that was refused is counted as a failure exactly if it is refused with 401 since OPAQUE
  -- does not accept it.
  pub refusal_judged :
      (e : StatusCode)
      → (Auth.login_finish body w).0 ≡ err e
      → ((e ≡ unauthorized)
          × (verdict body w ≡ some false)
          × ((Auth.login_finish body w).1.metrics ≡ record_login false w.metrics))
        ⊎ (((e ≡ internal_server_error)
              × (verdict body w ≡ some true)
              × ((Auth.login_finish body w).1.metrics ≡ record_login true w.metrics))
            ⊎ ((¬ ((e ≡ unauthorized) × (verdict body w ≡ some false)))
                × ((Auth.login_finish body w).1.metrics ≡ w.metrics)))
  unfolding Auth.login_finish Auth.open_session Auth.refuse_login take_login_flow redis get_del
      record_failure
  refusal_judged e h = ground arith
