-- ===== src/Devices/Examples.antt =====
-- Runs of the device registry on the sample platform, and the theorems at such runs.
use Prim.Native.String.{count}
use realm_guard_server.Prelude.{
  ◌≡◌, ◌≢◌, refl, inl, true, false, none, some, [], ◌∷◌, String, arith, filter, ◌≤◌, bytes_eq,
}
use realm_guard_server.Prelude.Text.{trim, is_empty}
use realm_guard_server.Platform.{Bytes}
use realm_guard_server.Platform.Sample.{sample}
use realm_guard_server.Database.{Database, DeviceRow}
use realm_guard_server.Result.{ok, err, unauthorized, no_content}
use realm_guard_server.World.{World, redis}
use realm_guard_server.World.Sample.{serving, tables}
use realm_guard_server.Cache.{get_del, set_ex}
use realm_guard_server.Sync.Rows.{Has}
use realm_guard_server.Auth.Sessions.{create_session, session_key}
use realm_guard_server.Devices.Registry.{
  upsert_device, is_device, device_with, active_account_for_pk,
}
use realm_guard_server.Devices.Registry
use realm_guard_server.Devices.Api
use realm_guard_server.Devices.Api.{RegisterReq, RenameReq, validate_name, max_name_len}
use realm_guard_server.Devices.AuthApi.{
  VerifyReq, VerifyResp, decode_pk, challenge_key, challenge, open_session, verify,
}
use realm_guard_server.Devices.Ownership.{
  HasUniqueKeys, upsert_device-HasUniqueKeys, register_again,
}
use realm_guard_server.Devices.Naming.{validate_name-stable, IsTight}
use realm_guard_server.Devices.Tenancy.{of, others_kept}
use realm_guard_server.Devices.Revocation.{revoked_refused}
use realm_guard_server.Devices.Vouched.{IsVouched, verify-IsVouched, challenge_once}

-- Opens the service.
opened : Unit {0}
unfolding sample serving redis get_del set_ex create_session session_key upsert_device
    active_account_for_pk Api.parse_id Api.validate_name Api.parse_device_pk Api.register Api.rename
    Api.revoke Registry.revoke decode_pk challenge_key challenge open_session verify trim bytes_eq
opened = tt

-- A key of 32 bytes, all zero.
abbrev key : Bytes
key =
    0 ∷ 0 ∷ 0 ∷ 0 ∷ 0 ∷ 0 ∷ 0 ∷ 0 ∷ 0 ∷ 0 ∷ 0 ∷ 0 ∷ 0 ∷ 0 ∷ 0 ∷ 0 ∷ 0 ∷ 0 ∷ 0 ∷ 0 ∷ 0 ∷ 0 ∷ 0 ∷ 0
    ∷ 0 ∷ 0 ∷ 0 ∷ 0 ∷ 0 ∷ 0 ∷ 0 ∷ 0 ∷ []

abbrev key_text : String
key_text = "bbbbbbbbbbbbbbbbbbbbbbbbbbbbbbbb"

abbrev phone : DeviceRow
phone = record {
  id = 3;
  account_id = 1;
  device_pk = key;
  name = "phone";
  created_at = 10;
  revoked_at = none;
}

abbrev laptop : DeviceRow
laptop = record {
  id = 4;
  account_id = 2;
  device_pk = 9 ∷ [];
  name = "laptop";
  created_at = 11;
  revoked_at = none;
}

abbrev with_devices : Database
with_devices = record tables { devices = phone ∷ laptop ∷ [] }

abbrev calm : World sample
calm = serving [] with_devices

calm-up : calm.schedule ≡ []
unfolding serving
calm-up = refl

calm-connected : calm.connected ≡ true
unfolding serving
calm-connected = refl

calm-HasUniqueKeys : HasUniqueKeys calm.db.devices
unfolding opened
calm-HasUniqueKeys = (refl, (refl, tt))

key_test : decode_pk sample key_text ≡ ok key
unfolding opened
key_test = refl

-- A verify that signs the challenge of draw 0.
abbrev signed : VerifyReq
signed = record { device_pk = key_text; signature = "baaaaaaaaaaaaaaaaaaaaaaaaaaaaaaaab" }

abbrev challenged : World sample
challenged = (challenge (record { device_pk = key_text }) calm).1

abbrev token : VerifyResp
token = record { session_token = "aa" }

verify_test : (verify signed challenged).0 ≡ ok token
unfolding opened
verify_test = refl

verify-IsVouched_example : IsVouched signed challenged
verify-IsVouched_example = verify-IsVouched signed challenged token verify_test

abbrev verified : World sample
verified = (verify signed challenged).1

challenged-up : challenged.schedule ≡ []
unfolding opened
challenged-up = refl

challenged-connected : challenged.connected ≡ true
unfolding opened
challenged-connected = refl

verified-up : verified.schedule ≡ []
unfolding opened
verified-up = refl

verified-connected : verified.connected ≡ true
unfolding opened
verified-connected = refl

signature_test : sample.decode64 "baaaaaaaaaaaaaaaaaaaaaaaaaaaaaaaab" ≡ some (0 ∷ 32 ∷ [])
unfolding opened
signature_test = refl

challenge_once_example : (verify signed verified).0 ≡ err unauthorized
challenge_once_example =
    challenge_once signed signed challenged verified key (0 ∷ 32 ∷ []) (0 ∷ 32 ∷ []) challenged-up
      challenged-connected key_test signature_test refl verified-up verified-connected key_test
      signature_test

-- The device is revoked, though its challenge waits.
abbrev revoked : World sample
revoked = (Api.revoke 1 "aaa" challenged).1

revoke_test : (Api.revoke 1 "aaa" challenged).0 ≡ ok no_content
unfolding opened
revoke_test = refl

challenged-HasUniqueKeys : HasUniqueKeys challenged.db.devices
unfolding opened
challenged-HasUniqueKeys = (refl, (refl, tt))

phone-Has : Has phone challenged.db.devices
unfolding opened
phone-Has = inl refl

id_test : sample.parse_uuid "aaa" ≡ some 3
unfolding opened
id_test = refl

revoked_refused_test : (verify signed revoked).0 ≢ ok token
revoked_refused_test =
    revoked_refused 1 3 "aaa" challenged revoked phone signed token challenged-HasUniqueKeys
      challenged-up id_test phone-Has refl refl key_test

others_kept_test :
    ((body : RegisterReq)
      → filter (of 2) (Api.register 1 body calm).1.db.devices ≡ filter (of 2) calm.db.devices)
    × ((id : String) (body : RenameReq)
        → filter (of 2) (Api.rename 1 id body calm).1.db.devices ≡ filter (of 2) calm.db.devices)
    × ((id : String)
        → filter (of 2) (Api.revoke 1 id calm).1.db.devices ≡ filter (of 2) calm.db.devices)
others_kept_test = others_kept 1 2 calm (omega arith) calm-HasUniqueKeys

abbrev renewed_phone : DeviceRow
renewed_phone = record {
  id = 8;
  account_id = 1;
  device_pk = key;
  name = "new phone";
  created_at = 20;
  revoked_at = none;
}

abbrev lost_phone : DeviceRow
lost_phone = record phone { revoked_at = some 15 }

abbrev without_phone : Database
without_phone = record tables { devices = lost_phone ∷ laptop ∷ [] }

without_phone-HasUniqueKeys : HasUniqueKeys without_phone.devices
unfolding bytes_eq
without_phone-HasUniqueKeys = (refl, (refl, tt))

upsert_device-HasUniqueKeys_test :
    HasUniqueKeys (upsert_device renewed_phone without_phone).1.devices
upsert_device-HasUniqueKeys_test =
    upsert_device-HasUniqueKeys renewed_phone without_phone without_phone-HasUniqueKeys

lost_phone-device_with : device_with renewed_phone.device_pk without_phone.devices ≡ some lost_phone
unfolding bytes_eq
lost_phone-device_with = refl

register_again_test :
    ((upsert_device renewed_phone without_phone).0 ≡ ok (some 3))
    × (device_with key (upsert_device renewed_phone without_phone).1.devices
        ≡ some (record lost_phone { name = "new phone"; revoked_at = none }))
register_again_test =
    register_again renewed_phone lost_phone without_phone lost_phone-device_with refl

name_test : validate_name "  my phone " ≡ ok "my phone"
unfolding opened
name_test = refl

validate_name-stable_test :
    ("my phone" ≡ trim "  my phone ")
    × IsTight "my phone"
    × (is_empty "my phone" ≡ false)
    × (count "my phone" ≤ max_name_len)
    × (validate_name "my phone" ≡ ok "my phone")
validate_name-stable_test = validate_name-stable "  my phone " "my phone" name_test
