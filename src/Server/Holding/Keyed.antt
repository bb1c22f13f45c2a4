-- ===== src/Server/Holding/Keyed.antt =====
-- What the handlers of src/device_auth_api.rs and src/pairing_api.rs do to the session of one token in
-- Redis: nothing, unless they draw that token anew.
use realm_guard_server.Prelude.{String, inl, inr, Option-cases, none, some, arith}
use realm_guard_server.Platform.{Platform, Bytes}
use realm_guard_server.Result.{Result-cases}
use realm_guard_server.World.{World, redis}
use realm_guard_server.Cache.{get_del}
use realm_guard_server.Auth.Sessions.{session_key, session_ttl_secs}
use realm_guard_server.Auth.Keys.{challenge-ne-session, pairing-ne-session}
use realm_guard_server.Relay.Pairing
use realm_guard_server.Relay.Pairing.{redis_key, pairing_ttl_secs}
use realm_guard_server.Devices.Registry.{active_account_for_pk}
use realm_guard_server.Devices.AuthApi
use realm_guard_server.Devices.AuthApi.{challenge_key, challenge_ttl_secs}
use realm_guard_server.Server.Holding.{
  IsOther, IsFresh, HasKept, del_keeps, set_keeps, redis-HasKept, get_del-HasKept,
}

module _ (p : Platform) (token : String) where
  pub challenge-HasKept :
      (body : AuthApi.ChallengeReq) (w : World p) → HasKept p token w (AuthApi.challenge body w).1
  unfolding AuthApi.challenge
  challenge-HasKept body w = elim (Result-cases (AuthApi.decode_pk p body.device_pk)) [
    | inr (e, bad) ↦ ground arith
    | inl (pk, good) ↦ elim (Option-cases (p.getrandom w.draws AuthApi.nonce_len)) [
      | inl bad ↦ ground arith
      | inr (nonce, drawn) ↦ ground (
        arith,
        set_keeps p token w.cache w.now (challenge_key p pk) (p.redis.of_bytes nonce)
            challenge_ttl_secs (challenge-ne-session p pk token),
      )
    ]
  ]

  device_session-HasKept :
      (device_pk : Bytes) (w : World p)
      → IsOther p token w.draws
      → HasKept p token w (AuthApi.open_session device_pk w).1
  unfolding AuthApi.open_session
  device_session-HasKept device_pk w h = elim (Result-cases (active_account_for_pk device_pk w).0) [
    | inr (e, bad) ↦ ground arith
    | inl (none, unknown) ↦ ground arith
    | inl (some account, known) ↦ ground (
      arith,
      set_keeps p token w.cache w.now (session_key (p.uuid_simple (p.new_v4 w.draws)))
          (p.redis.of_text (p.uuid_text account)) session_ttl_secs h,
    )
  ]

  pub verify-HasKept :
      (body : AuthApi.VerifyReq) (w : World p)
      → IsFresh p token w
      → HasKept p token w (AuthApi.verify body w).1
  unfolding AuthApi.verify
  verify-HasKept body w h = elim (Result-cases (AuthApi.decode_pk p body.device_pk)) [
    | inr (e, bad) ↦ ground arith
    | inl (pk, good) ↦
        let connecting = redis-HasKept p token w in
        let u = (redis w).1 in
        let v = (get_del p.redis.to_bytes (challenge_key p pk) u).1 in
        let taking =
          get_del-HasKept p token u (challenge_key p pk) (challenge-ne-session p pk token) in
        let opening = device_session-HasKept pk v (h v.draws (ground arith)) in ground arith
  ]

  pub deposit-HasKept :
      (id : String) (body : Pairing.DepositReq) (w : World p)
      → HasKept p token w (Pairing.deposit id body w).1
  unfolding Pairing.deposit
  deposit-HasKept id body w = elim (Result-cases (redis_key id)) [
    | inr (e, bad) ↦ ground arith
    | inl (k, good) ↦ elim (Option-cases (p.decode64 body.response)) [
      | inl bad ↦ ground arith
      | inr (blob, decoded) ↦ ground (
        arith,
        set_keeps p token w.cache w.now k (p.redis.of_bytes blob) pairing_ttl_secs
            (pairing-ne-session id k token good),
      )
    ]
  ]

  pub pairing_fetch-HasKept : (id : String) (w : World p) → HasKept p token w (Pairing.fetch id w).1
  unfolding Pairing.fetch
  pairing_fetch-HasKept id w = elim (Result-cases (redis_key id)) [
    | inr (e, bad) ↦ ground arith
    | inl (k, good) ↦
        ground (arith, del_keeps p token w.cache k (pairing-ne-session id k token good))
  ]
