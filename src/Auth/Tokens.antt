-- ===== src/Auth/Tokens.antt =====
-- Theorems on session tokens: src/sessions.rs and the extractor of src/auth_api.rs.
use Prim.Native.String
use Prim.Native.String.{len, slice}
use text.Mathlib.TextPositions.{starts_with-append, slice-append_right, len-append}
use realm_guard_server.Prelude.{
  ℕ, ◌≡◌, String, true, some, [], arith, ltb, str_eq_refl, if◌then◌else◌,
}
use realm_guard_server.Prelude.Text.{strip_prefix}
use realm_guard_server.Platform.{Platform, Uuid}
use realm_guard_server.Result.{ok, err, unauthorized}
use realm_guard_server.World.{World}
use realm_guard_server.Auth.Sessions.{session_key, session_ttl_secs, create_session}
use realm_guard_server.Auth.Api.{from_request_parts}
use realm_guard_server.Auth.Lockout.{tick}

pub strip_prefix-append : (prefix s : String) → strip_prefix prefix (String.◌++◌ prefix s) ≡ some s
unfolding strip_prefix
strip_prefix-append prefix s = rw (starts_with-append, len-append, slice-append_right)

module _ {p : Platform} (account : Uuid) (w : World p) where
  -- The token that the next session gets.
  abbrev pub next_token : String
  next_token = p.uuid_simple (p.new_v4 w.draws)

  -- A session is good for its account for seven days and for no second longer, with the services
  -- up, Redis connected and nothing else writing to Redis.
  pub session_lifetime :
      (t : ℕ)
      → w.schedule ≡ []
      → w.connected ≡ true
      → (from_request_parts
          (some (String.◌++◌ "Bearer " next_token))
          (tick t (create_session account w).1)).0
        ≡ (if ltb t session_ttl_secs then ok account else err unauthorized)
  unfolding from_request_parts create_session
  session_lifetime t up connected = ground (
    arith,
    strip_prefix-append "Bearer " next_token,
    str_eq_refl (session_key next_token),
    p.redis.entry-set_ex w.cache w.now (session_key next_token)
        (p.redis.of_text (p.uuid_text account)) session_ttl_secs (session_key next_token),
    p.redis.to_text-of_text (p.uuid_text account),
    p.parse_uuid-uuid_text account,
  )
