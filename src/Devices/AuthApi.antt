-- ===== src/Devices/AuthApi.antt =====
-- src/device_auth_api.rs: a session for a registered device that signs a challenge.
use Prim.Native.String
use realm_guard_server.Prelude.{ℕ, String, ◌==◌, length, if◌then◌else◌}
use realm_guard_server.Platform.{Platform, Bytes}
use realm_guard_server.Result
use realm_guard_server.Result.{
  Result, ok, err, ok_or, internal, unavailable, StatusCode, bad_request, unauthorized,
}
use realm_guard_server.World.{Exec, pure, fail, lift, draw, redis, map_err, ◌>>=◌, ◌>>◌}
use realm_guard_server.Cache.{set_ex, get_del}
use realm_guard_server.Auth.Sessions.{create_session}
use realm_guard_server.Devices.Registry.{active_account_for_pk}

abbrev pub device_pk_len : ℕ
device_pk_len = 32

abbrev pub nonce_len : ℕ
nonce_len = 32

abbrev pub challenge_ttl_secs : ℕ
challenge_ttl_secs = 60

pub record ChallengeReq : Type 0 where
  pub device_pk : String

pub record ChallengeResp : Type 0 where
  pub challenge : String

pub record VerifyReq : Type 0 where
  pub device_pk : String
  pub signature : String

pub record VerifyResp : Type 0 where
  pub session_token : String

abbrev sized : Bytes → Result StatusCode Bytes
sized pk = if length pk == device_pk_len then ok pk else err bad_request

unfoldable pub decode_pk : Platform → String → Result StatusCode Bytes
decode_pk p value = Result.◌>>=◌ (ok_or bad_request (p.decode64 value)) sized

unfoldable pub challenge_key : Platform → Bytes → String
challenge_key p device_pk = String.◌++◌ "devauth:" (p.encode64 device_pk)

module _ {p : Platform} where
  unfoldable pub challenge : ChallengeReq → Exec p StatusCode ChallengeResp
  unfolding redis set_ex
  challenge body = do
    device_pk ← lift (decode_pk p body.device_pk)
    n ← draw
    nonce ← lift (ok_or (internal unavailable) (p.getrandom n nonce_len))
    map_err internal redis
    map_err internal
        (set_ex (challenge_key p device_pk) (p.redis.of_bytes nonce) challenge_ttl_secs)
    pure (record { challenge = p.encode64 nonce })

  -- From a signature that is valid on.
  unfoldable pub open_session : Bytes → Exec p StatusCode VerifyResp
  unfolding active_account_for_pk create_session
  open_session device_pk = do
    active ← map_err internal (active_account_for_pk device_pk)
    account_id ← lift (ok_or unauthorized active)
    token ← map_err internal (create_session account_id)
    pure (record { session_token = token })

  unfoldable pub verify : VerifyReq → Exec p StatusCode VerifyResp
  unfolding redis get_del
  verify body = do
    device_pk ← lift (decode_pk p body.device_pk)
    signature ← lift (ok_or bad_request (p.decode64 body.signature))
    map_err internal redis
    taken ← map_err internal (get_del p.redis.to_bytes (challenge_key p device_pk))
    nonce ← lift (ok_or unauthorized taken)
    if p.device_verify device_pk nonce signature then open_session device_pk else fail unauthorized
