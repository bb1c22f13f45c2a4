-- ===== src/Server/Health.antt =====
-- src/health.rs: liveness, which asks nothing of the services, and readiness, which asks both.
use realm_guard_server.Prelude.{String}
use realm_guard_server.Platform.{Platform}
use realm_guard_server.Result.{ok, Failure, StatusCode, service_unavailable}
use realm_guard_server.World.{Exec, postgres, command, redis, pure, map_err, ◌>>◌}

pub record Health : Type 0 where
  pub status : String
  pub core_version : String

pub record Ready : Type 0 where
  pub status : String
  pub database : String
  pub redis : String

module _ {p : Platform} where
  -- the version of realm-guard-core is an argument
  unfoldable pub healthz : String → Exec p StatusCode Health
  healthz core_version = pure (record { status = "ok"; core_version = core_version })

  -- SELECT 1
  abbrev select_one : Exec p Failure (Unit {0})
  select_one = postgres λ db. (ok tt, db)

  -- PING
  abbrev ping : Exec p Failure (Unit {0})
  ping = command λ s. (ok tt, s)

  unfoldable pub readyz : Exec p StatusCode Ready
  unfolding postgres command redis
  readyz = do
    map_err (λ _. service_unavailable) select_one
    map_err (λ _. service_unavailable) redis
    map_err (λ _. service_unavailable) ping
    pure (record { status = "ready"; database = "up"; redis = "up" })
