-- ===== src/Auth/Sessions.antt =====
-- src/sessions.rs: login flows of one use and sessions, in Redis.
use Prim.Native.String
use realm_guard_server.Prelude.{ℕ, ◌*◌, String, Option, none, some}
use realm_guard_server.Platform.{Platform, Bytes, Uuid}
use realm_guard_server.Result.{Failure}
use realm_guard_server.World.{Exec, draw, pure, ◌>>=◌, ◌>>◌}
use realm_guard_server.Cache.{set_ex, get, get_del}

abbrev pub login_flow_ttl_secs : ℕ
login_flow_ttl_secs = 60

abbrev pub session_ttl_secs : ℕ
session_ttl_secs = 7 * 24 * 3600

unfoldable pub login_key : String → String
login_key flow_id = String.◌++◌ "login:" flow_id

unfoldable pub session_key : String → String
session_key token = String.◌++◌ "session:" token

abbrev pub and_then {ℓ κ} : {A : Type ℓ} {B : Type κ} → Option A → (A → Option B) → Option B
and_then none f = none
and_then (some a) f = f a

module _ {p : Platform} where
  unfoldable pub store_login_flow : String → Bytes → Exec p Failure (Unit {0})
  unfolding set_ex
  store_login_flow flow_id blob =
      set_ex (login_key flow_id) (p.redis.of_bytes blob) login_flow_ttl_secs

  unfoldable pub take_login_flow : String → Exec p Failure (Option Bytes)
  unfolding get_del
  take_login_flow flow_id = get_del p.redis.to_bytes (login_key flow_id)

  unfoldable pub create_session : Uuid → Exec p Failure String
  unfolding set_ex
  create_session account_id = do
    n ← draw
    let token = p.uuid_simple (p.new_v4 n)
    set_ex (session_key token) (p.redis.of_text (p.uuid_text account_id)) session_ttl_secs
    pure token

  unfoldable pub session_account : String → Exec p Failure (Option Uuid)
  unfolding get
  session_account token = do
    value ← get p.redis.to_text (session_key token)
    pure (and_then value p.parse_uuid)
