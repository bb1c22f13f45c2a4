-- ===== src/Server/Holding.antt =====
-- What the commands that go to Redis do to the session of one token (src/sessions.rs): nothing, at keys
-- of the other kinds. Holding/Logins, Keyed and Calm say it of each handler.
pub mod Logins
pub mod Keyed
pub mod Calm
use realm_guard_server.Prelude.{
  ℕ, String, ◌≡◌, ◌≤◌, refl, ◌∙◌, inl, inr, Option, Option-cases, none, some, suc, false, str_eq,
  arith,
}
use realm_guard_server.Prelude.Utf8.{as_bytes}
use realm_guard_server.Platform.{Platform, Bytes, Uuid, LoginFlow}
use realm_guard_server.Result.{Result-cases}
use realm_guard_server.World.{World, redis}
use realm_guard_server.Cache.{incremented, get_del}
use realm_guard_server.Auth.Accounts.{insert_row, account_credentials}
use realm_guard_server.Auth.Sessions.{
  login_key, session_key, take_login_flow, create_session, session_ttl_secs, login_flow_ttl_secs,
}
use realm_guard_server.Auth.RateLimit.{key, locked_for, record_failure, reset, window_secs}
use realm_guard_server.Auth.Keys.{
  login-ne-session, counter-ne-session, challenge-ne-session, pairing-ne-session,
}
use realm_guard_server.Auth.Api as Auth
use realm_guard_server.Relay.Vault
use realm_guard_server.Relay.Pairing
use realm_guard_server.Relay.Pairing.{redis_key, pairing_ttl_secs}
use realm_guard_server.Devices.Registry.{upsert_device, active_account_for_pk}
use realm_guard_server.Devices.Api as Devices
use realm_guard_server.Devices.AuthApi
use realm_guard_server.Devices.AuthApi.{challenge_key, challenge_ttl_secs}
use realm_guard_server.Sync.Api
use realm_guard_server.Server.Health

module _ (p : Platform) (token : String) where
  -- The token of the n-th draw is another.
  abbrev pub IsOther : ℕ → Type 0
  IsOther n = str_eq (session_key (p.uuid_simple (p.new_v4 n))) (session_key token) ≡ false

  -- No token that is still to be drawn is this one.
  abbrev pub IsFresh : World p → Type 0
  IsFresh w = (n : ℕ) → w.draws ≤ n → IsOther n

  -- The session's entry is as it was, and the draws went on.
  abbrev pub HasKept : World p → World p → Type 0
  HasKept w v =
      (p.redis.entry v.cache (session_key token) ≡ p.redis.entry w.cache (session_key token))
      × (w.draws ≤ v.draws)
      × (v.now ≡ w.now)

  pub HasKept-trans : (u v w : World p) → HasKept u v → HasKept v w → HasKept u w
  HasKept-trans u v w h k = ground arith

  -- The commands, at keys of the other kinds.
  pub del_keeps :
      (s : p.redis.Store) (k : String)
      → str_eq k (session_key token) ≡ false
      → p.redis.entry (p.redis.del s k) (session_key token) ≡ p.redis.entry s (session_key token)
  del_keeps s k h = p.redis.entry-del s k (session_key token) ∙ rw h refl

  pub set_keeps :
      (s : p.redis.Store) (now : ℕ) (k : String) (v : p.redis.Value) (ttl : ℕ)
      → str_eq k (session_key token) ≡ false
      → p.redis.entry (p.redis.set_ex s now k v ttl) (session_key token)
        ≡ p.redis.entry s (session_key token)
  set_keeps s now k v ttl h = p.redis.entry-set_ex s now k v ttl (session_key token) ∙ rw h refl

  pub expire_keeps :
      (s : p.redis.Store) (now : ℕ) (k : String) (ttl : ℕ)
      → str_eq k (session_key token) ≡ false
      → p.redis.entry (p.redis.expire s now k ttl) (session_key token)
        ≡ p.redis.entry s (session_key token)
  expire_keeps s now k ttl h = p.redis.entry-expire s now k ttl (session_key token) ∙ rw h refl

  pub incr_keeps :
      (s : p.redis.Store) (now : ℕ) (k : String)
      → str_eq k (session_key token) ≡ false
      → p.redis.entry (incremented s (p.redis.incr s now k)).1 (session_key token)
        ≡ p.redis.entry s (session_key token)
  incr_keeps s now k h = elim (Option-cases (p.redis.incr s now k)) [
    | inl e ↦ rw e refl
    | inr (s', e) ↦ rw e (p.redis.entry-incr_ne s s' now k (session_key token) e h)
  ]

  module _ (w : World p) where
    pub redis-HasKept : HasKept w (redis w).1
    unfolding redis
    redis-HasKept = ground arith

    pub get_del-HasKept :
        (k : String)
        → str_eq k (session_key token) ≡ false
        → HasKept w (get_del p.redis.to_bytes k w).1
    unfolding get_del
    get_del-HasKept k other = ground (arith, del_keeps w.cache k other)
