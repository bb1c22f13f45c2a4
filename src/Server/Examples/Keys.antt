-- ===== src/Server/Examples/Keys.antt =====
-- A device key that signs in after a request and ten seconds, on the sample platform.
use realm_guard_server.Prelude.{◌≡◌, ◌≢◌, inl, arith, ◌+◌, refl, String, some, none, [], ◌∷◌}
use realm_guard_server.Platform.{Bytes}
use realm_guard_server.Platform.Sample.{sample}
use realm_guard_server.Database.{DeviceRow}
use realm_guard_server.Result.{ok, err, unauthorized}
use realm_guard_server.World.{World, redis}
use realm_guard_server.World.Sample.{serving, tables}
use realm_guard_server.Cache.{get_del}
use realm_guard_server.Auth.Sessions.{create_session, session_key, session_ttl_secs}
use realm_guard_server.Auth.Api.{from_request_parts}
use realm_guard_server.Prelude.Text.{strip_prefix}
use realm_guard_server.Devices.Registry.{device_with, active_account_for_pk}
use realm_guard_server.Devices.Ownership.{HasUniqueKeys}
use realm_guard_server.Devices.AuthApi.{
  VerifyReq, VerifyResp, decode_pk, challenge_key, challenge, open_session, verify,
}
use realm_guard_server.Server.App.{respond}
use realm_guard_server.Sync.Rows.{Has}
use realm_guard_server.Devices.Registry
use realm_guard_server.Devices.Api as Devices
use realm_guard_server.Server.Apart.{asked, begun}
use realm_guard_server.Server.Revoked.{revoked_for_good}
use realm_guard_server.Server.Sessions.{passed, born, after}
use realm_guard_server.Server.Sessions
use realm_guard_server.Server.Keyholders.{key_for_good, key_signs_in}
use realm_guard_server.Server.Examples.{framework, forged}

-- Opens the services.
opened : Unit {0}
unfolding sample serving redis get_del session_key active_account_for_pk create_session decode_pk
    challenge_key challenge open_session verify respond from_request_parts strip_prefix
opened = tt

-- A key of 32 bytes, all zero.
abbrev key : Bytes
key =
    0 ∷ 0 ∷ 0 ∷ 0 ∷ 0 ∷ 0 ∷ 0 ∷ 0 ∷ 0 ∷ 0 ∷ 0 ∷ 0 ∷ 0 ∷ 0 ∷ 0 ∷ 0 ∷ 0 ∷ 0 ∷ 0 ∷ 0 ∷ 0 ∷ 0 ∷ 0 ∷ 0
    ∷ 0 ∷ 0 ∷ 0 ∷ 0 ∷ 0 ∷ 0 ∷ 0 ∷ 0 ∷ []

abbrev key_text : String
key_text = "bbbbbbbbbbbbbbbbbbbbbbbbbbbbbbbb"

abbrev phone : DeviceRow
phone = record {
  id = 3;
  account_id = 1;
  device_pk = key;
  name = "phone";
  created_at = 10;
  revoked_at = none;
}

-- A challenge waits for the key.
abbrev challenged : World sample
challenged =
    (challenge (record { device_pk = key_text })
      (serving [] (record tables { devices = phone ∷ [] }))).1

challenged-HasUniqueKeys : HasUniqueKeys challenged.db.devices
unfolding opened
challenged-HasUniqueKeys = (refl, tt)

known : device_with key challenged.db.devices ≡ some phone
unfolding opened
known = refl

-- Someone asks with a forged token, and ten seconds pass.
abbrev soon : World sample
soon = record (respond framework forged challenged).1 {
  now = (respond framework forged challenged).1.now + 10;
  schedule = [];
}

abbrev signed : VerifyReq
signed = record { device_pk = key_text; signature = "baaaaaaaaaaaaaaaaaaaaaaaaaaaaaaaab" }

abbrev token : VerifyResp
token = record { session_token = "aa" }

key_test : decode_pk sample key_text ≡ ok key
unfolding opened
key_test = refl

verify_test : (verify signed soon).0 ≡ ok token
unfolding opened
verify_test = refl

key_for_good_example :
    HasUniqueKeys soon.db.devices
    × ((e : DeviceRow) × (device_with key soon.db.devices ≡ some e)
        × (e.id ≡ 3)
        × (e.account_id ≡ 1))
key_for_good_example =
    key_for_good framework challenged soon key phone challenged-HasUniqueKeys known
      (after (after born (Sessions.asked forged)) (passed 10 []))

key_signs_in_example :
    sample.redis.entry (verify signed soon).1.cache (session_key "aa")
    ≡ some (record {
      value = sample.redis.of_text (sample.uuid_text 1);
      expires = some (soon.now + session_ttl_secs);
    })
key_signs_in_example =
    key_signs_in framework challenged soon key phone signed token challenged-HasUniqueKeys known
      (after (after born (Sessions.asked forged)) (passed 10 [])) key_test verify_test

-- The account revokes the device while the challenge waits; then someone asks with a forged token.
abbrev revoked : World sample
revoked = (Devices.revoke 1 "aaa" challenged).1

abbrev soon_revoked : World sample
soon_revoked = (respond framework forged revoked).1

forged_test : (from_request_parts forged.authorization revoked).0 ≡ err unauthorized
unfolding opened Devices.revoke Devices.parse_id Registry.revoke
forged_test = refl

challenged-up : challenged.schedule ≡ []
unfolding opened
challenged-up = refl

id_test : sample.parse_uuid "aaa" ≡ some 3
unfolding opened
id_test = refl

phone-Has : Has phone challenged.db.devices
unfolding opened
phone-Has = inl refl

revoked_for_good_example : (verify signed soon_revoked).0 ≢ ok token
revoked_for_good_example =
    revoked_for_good framework 1 3 "aaa" challenged soon_revoked phone signed token
      challenged-HasUniqueKeys challenged-up id_test phone-Has refl
      (asked forged begun (λ e. ground (arith, forged_test))) key_test
