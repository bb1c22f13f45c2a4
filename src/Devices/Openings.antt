-- ===== src/Devices/Openings.antt =====
-- What Redis holds after `verify` of src/device_auth_api.rs has opened a session.
use realm_guard_server.Prelude.{◌≡◌, inl, inr, some, Option-cases, find?, arith, ◌+◌, str_eq_refl}
use realm_guard_server.Platform.{Platform, Bytes}
use realm_guard_server.Database.{DeviceRow}
use realm_guard_server.Result.{ok}
use realm_guard_server.World.{World, redis}
use realm_guard_server.Cache.{get_del}
use realm_guard_server.Auth.Sessions.{session_key, session_ttl_secs, create_session}
use realm_guard_server.Devices.Registry.{is_active, active_account_for_pk}
use realm_guard_server.Devices.AuthApi.{
  VerifyReq, VerifyResp, decode_pk, challenge_key, open_session, verify,
}

module _ {p : Platform} where
  -- A verify that succeeds ends in a session.
  verify-opened :
      (body : VerifyReq) (w : World p) (resp : VerifyResp) (pk : Bytes)
      → decode_pk p body.device_pk ≡ ok pk
      → (verify body w).0 ≡ ok resp
      → (u : World p) × (verify body w ≡ open_session pk u) × (u.db ≡ w.db) × (u.now ≡ w.now)
  unfolding verify redis get_del
  verify-opened body w resp pk key h = elim (Option-cases (p.decode64 body.signature)) [
    | inl bad ↦ absurd (ground arith)
    | inr (signature, given) ↦
        let u = (get_del p.redis.to_bytes (challenge_key p pk) (redis w).1).1 in
        (u, ground arith, ground arith, ground arith)
  ]

  open_session-stored :
      (pk : Bytes) (w : World p) (resp : VerifyResp)
      → (open_session pk w).0 ≡ ok resp
      → (d : DeviceRow) × (find? (is_active pk) w.db.devices ≡ some d)
        × (p.redis.entry (open_session pk w).1.cache (session_key resp.session_token)
            ≡ some (record {
              value = p.redis.of_text (p.uuid_text d.account_id);
              expires = some (w.now + session_ttl_secs);
            }))
  unfolding open_session active_account_for_pk create_session
  open_session-stored pk w resp h = elim (Option-cases (find? (is_active pk) w.db.devices)) [
    | inl e ↦ absurd (ground arith)
    | inr (d, e) ↦ (
      d,
      e,
      ground (
        arith,
        str_eq_refl (session_key (p.uuid_simple (p.new_v4 w.draws))),
        p.redis.entry-set_ex w.cache w.now (session_key (p.uuid_simple (p.new_v4 w.draws)))
            (p.redis.of_text (p.uuid_text d.account_id)) session_ttl_secs
            (session_key (p.uuid_simple (p.new_v4 w.draws))),
      ),
    )
  ]

  pub verify-stored :
      (body : VerifyReq) (w : World p) (resp : VerifyResp) (pk : Bytes)
      → decode_pk p body.device_pk ≡ ok pk
      → (verify body w).0 ≡ ok resp
      → (d : DeviceRow) × (find? (is_active pk) w.db.devices ≡ some d)
        × (p.redis.entry (verify body w).1.cache (session_key resp.session_token)
            ≡ some (record {
              value = p.redis.of_text (p.uuid_text d.account_id);
              expires = some (w.now + session_ttl_secs);
            }))
  verify-stored body w resp pk key h =
      let (u, same, tables, time) = verify-opened body w resp pk key h in
      let (d, active, stored) = open_session-stored pk u resp (rw (← same) h) in
      (d, rw (← tables) active, rw (same, ← time) stored)
