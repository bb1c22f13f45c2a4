-- ===== src/Auth/RateLimit.antt =====
-- src/rate_limit.rs: failed logins counted per username, and the lock from the tenth on.
use Prim.Native.String
use realm_guard_server.Prelude.{
  ℕ, String, Bool, false, Option, none, some, leb, ℤ, pos, pos_part, ltb_ℤ, if◌then◌else◌,
}
use realm_guard_server.Platform.{Platform}
use realm_guard_server.Result.{Failure}
use realm_guard_server.World.{Exec, pure, ◌>>=◌, ◌>>◌}
use realm_guard_server.Cache

abbrev pub max_failures : ℕ
max_failures = 10

abbrev pub window_secs : ℕ
window_secs = 900

unfoldable pub key : String → String
key username = String.◌++◌ "rl:login:" username

unfoldable pub lock_decision : Option ℕ → ℤ → Option ℕ
lock_decision none ttl_secs = none
lock_decision (some count) ttl_secs =
    if leb max_failures count
    then some (if ltb_ℤ (pos 0) ttl_secs then pos_part ttl_secs else window_secs)
    else none

abbrev reaches : Option ℕ → Bool
reaches none = false
reaches (some count) = leb max_failures count

module _ {p : Platform} where
  unfoldable pub locked_for : String → Exec p Failure (Option ℕ)
  unfolding Cache.get Cache.ttl lock_decision
  locked_for username = do
    failures ← Cache.get p.redis.to_u64 (key username)
    if reaches failures
        then (do ttl ← Cache.ttl (key username); pure (lock_decision failures ttl))
        else pure none

  unfoldable pub record_failure : String → Exec p Failure (Unit {0})
  unfolding Cache.incr Cache.expire
  record_failure username = do Cache.incr (key username); Cache.expire (key username) window_secs

  unfoldable pub reset : String → Exec p Failure (Unit {0})
  unfolding Cache.del
  reset username = Cache.del (key username)
