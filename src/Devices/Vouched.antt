-- ===== src/Devices/Vouched.antt =====
-- Theorems on sessions by device key (src/device_auth_api.rs `verify`).
use realm_guard_server.Prelude.{
  ◌≡◌, ◌∙◌, inl, inr, String, true, none, some, Option-cases, Bool-cases, [], arith, str_eq_refl,
  find?,
}
use realm_guard_server.Platform.{Platform, Bytes, live}
use realm_guard_server.Database.{DeviceRow}
use realm_guard_server.Result.{ok, err, Result-cases, unauthorized}
use realm_guard_server.World.{World, redis}
use realm_guard_server.Cache.{get_del, converted}
use realm_guard_server.Auth.Sessions.{session_key, session_ttl_secs}
use realm_guard_server.Auth.Keys.{session-ne-challenge}
use realm_guard_server.Devices.Registry.{is_active, active_account_for_pk}
use realm_guard_server.Devices.AuthApi.{
  VerifyReq, VerifyResp, decode_pk, challenge_key, open_session, verify,
}

-- A session for the request rests on all of these: the device key and the signature that it has, the
-- nonce that waits under the key, which that signature signs, and a device of that key, not revoked.
pub record IsVouched {p : Platform} (body : VerifyReq) (w : World p) : Type 0 where
  pub device_pk : Bytes
  pub keyed : decode_pk p body.device_pk ≡ ok device_pk
  pub signature : Bytes
  pub given : p.decode64 body.signature ≡ some signature
  pub nonce : Bytes
  pub waiting :
      converted p.redis.to_bytes (live w.now (p.redis.entry w.cache (challenge_key p device_pk)))
      ≡ ok (some nonce)
  pub signed : p.device_verify device_pk nonce signature ≡ true
  pub device : DeviceRow
  pub active : find? (is_active device_pk) w.db.devices ≡ some device

open_session-device :
    {p : Platform} (pk : Bytes) (w : World p) (resp : VerifyResp)
    → (open_session pk w).0 ≡ ok resp
    → (d : DeviceRow) × (find? (is_active pk) w.db.devices ≡ some d)
unfolding open_session active_account_for_pk
open_session-device pk w resp h = elim (Option-cases (find? (is_active pk) w.db.devices)) [
  | inl e ↦ absurd (ground arith)
  | inr found ↦ found
]

-- What `redis` leaves alone.
redis-keeps :
    {p : Platform} (w : World p)
    → ((redis w).1.cache ≡ w.cache) × ((redis w).1.db ≡ w.db) × ((redis w).1.now ≡ w.now)
unfolding redis
redis-keeps w = (ground arith, ground arith, ground arith)

get_del-keeps :
    {p : Platform} (k : String) (w : World p) (nonce : Bytes)
    → (get_del p.redis.to_bytes k w).0 ≡ ok (some nonce)
    → (converted p.redis.to_bytes (live w.now (p.redis.entry w.cache k)) ≡ ok (some nonce))
      × ((get_del p.redis.to_bytes k w).1.db ≡ w.db)
unfolding get_del
get_del-keeps k w nonce h = (ground arith, ground arith)

-- Whatever the services answer: a session by device key is opened only for a request that holds a
-- signature, valid under its key, of the challenge that waits for that key and has not expired, and
-- only if a device of that key is registered and not revoked.
pub verify-IsVouched :
    {p : Platform} (body : VerifyReq) (w : World p) (resp : VerifyResp)
    → (verify body w).0 ≡ ok resp
    → IsVouched body w
unfolding verify
verify-IsVouched {p} body w resp h = elim (Result-cases (decode_pk p body.device_pk)) [
  | inr (e, bad) ↦ absurd (ground arith)
  | inl (pk, keyed) ↦ elim (Option-cases (p.decode64 body.signature)) [
    | inl bad ↦ absurd (ground arith)
    | inr (signature, given) ↦ elim (Result-cases (redis w).0) [
      | inr (e, bad) ↦ absurd (ground arith)
      | inl (_, up) ↦
          let u = (redis w).1 in
          let k = challenge_key p pk in
          elim (Result-cases (get_del p.redis.to_bytes k u).0) [
            | inr (e, bad) ↦ absurd (ground arith)
            | inl (none, absent) ↦ absurd (ground arith)
            | inl (some nonce, taken) ↦ elim (Bool-cases (p.device_verify pk nonce signature)) [
              | inr bad ↦ absurd (ground arith)
              | inl signed ↦
                  let (d, active) =
                    open_session-device pk (get_del p.redis.to_bytes k u).1 resp (ground arith) in
                  record {
                    device_pk = pk;
                    keyed = keyed;
                    signature = signature;
                    given = given;
                    nonce = nonce;
                    waiting = ground (arith, redis-keeps w, get_del-keeps k u nonce taken);
                    signed = signed;
                    device = d;
                    active = ground (arith, redis-keeps w, get_del-keeps k u nonce taken);
                  }
            ]
          ]
    ]
  ]
]

-- What waits under a key after it was taken.
get_del-gone :
    {p : Platform} (k : String) (w : World p)
    → w.schedule ≡ []
    → p.redis.entry (get_del p.redis.to_bytes k w).1.cache k ≡ none
unfolding get_del
get_del-gone {p} k w up = ground (arith, p.redis.entry-del w.cache k k, str_eq_refl k)

-- Opening a session leaves the challenges.
cache-open_session :
    {p : Platform} (pk k : Bytes) (w : World p)
    → p.redis.entry (open_session pk w).1.cache (challenge_key p k)
      ≡ p.redis.entry w.cache (challenge_key p k)
unfolding open_session active_account_for_pk
cache-open_session {p} pk k w = elim (Option-cases (find? (is_active pk) w.db.devices)) [
  | inl e ↦ ground arith
  | inr (d, e) ↦ ground (
    arith,
    session-ne-challenge (p.uuid_simple (p.new_v4 w.draws)) p k,
    p.redis.entry-set_ex w.cache w.now (session_key (p.uuid_simple (p.new_v4 w.draws)))
        (p.redis.of_text (p.uuid_text d.account_id)) session_ttl_secs (challenge_key p k),
  )
]

module _ {p : Platform} (body : VerifyReq) (w : World p) (pk signature : Bytes) where
  -- A verify that reached Redis has taken the challenge, whatever it answers.
  verified_gone :
      w.schedule ≡ []
      → w.connected ≡ true
      → decode_pk p body.device_pk ≡ ok pk
      → p.decode64 body.signature ≡ some signature
      → p.redis.entry (verify body w).1.cache (challenge_key p pk) ≡ none
  unfolding verify redis
  verified_gone up connected keyed given =
      elim (Result-cases (get_del p.redis.to_bytes (challenge_key p pk) w).0) [
        | inr (e, bad) ↦ ground (arith, get_del-gone (challenge_key p pk) w up)
        | inl (none, absent) ↦ ground (arith, get_del-gone (challenge_key p pk) w up)
        | inl (some nonce, present) ↦ ground (
          arith,
          get_del-gone (challenge_key p pk) w up,
          cache-open_session pk pk (get_del p.redis.to_bytes (challenge_key p pk) w).1,
        )
      ]

  -- A verify for whose key no challenge waits is refused.
  unknown_challenge :
      w.schedule ≡ []
      → w.connected ≡ true
      → decode_pk p body.device_pk ≡ ok pk
      → p.decode64 body.signature ≡ some signature
      → p.redis.entry w.cache (challenge_key p pk) ≡ none
      → (verify body w).0 ≡ err unauthorized
  unfolding verify redis get_del
  unknown_challenge up connected keyed given gone = ground arith

-- With the services up and Redis connected, a challenge serves one attempt: after a verify for a
-- key with a signature that decodes, accepted or not, every later verify for that key with a
-- signature that decodes is refused with 401 as long as Redis has no new challenge for it,
-- whatever else of the server changes.
pub challenge_once :
    {p : Platform} (first second : VerifyReq) (w u : World p) (pk a b : Bytes)
    → w.schedule ≡ []
    → w.connected ≡ true
    → decode_pk p first.device_pk ≡ ok pk
    → p.decode64 first.signature ≡ some a
    → p.redis.entry u.cache (challenge_key p pk)
      ≡ p.redis.entry (verify first w).1.cache (challenge_key p pk)
    → u.schedule ≡ []
    → u.connected ≡ true
    → decode_pk p second.device_pk ≡ ok pk
    → p.decode64 second.signature ≡ some b
    → (verify second u).0 ≡ err unauthorized
challenge_once first second w u pk a b up connected keyed given same up' connected' keyed' given' =
    unknown_challenge second u pk b up' connected' keyed' given'
      (same ∙ verified_gone first w pk a up connected keyed given)
