-- ===== src/Devices/Api.antt =====
-- src/devices_api.rs: the handlers of /devices, for an authenticated account.
use Prim.Native.String.{count}
use realm_guard_server.Prelude.{ℕ, String, Bool, ◌||◌, List, map, ◌==◌, ltb, length, if◌then◌else◌}
use realm_guard_server.Prelude.Text.{trim, is_empty}
use realm_guard_server.Platform.{Platform, Bytes, Uuid}
use realm_guard_server.Result
use realm_guard_server.Result.{
  Result, ok, err, ok_or, internal, StatusCode, created, no_content, bad_request, not_found,
  conflict,
}
use realm_guard_server.World.{Exec, pure, fail, lift, map_err, ◌>>=◌}
use realm_guard_server.Devices.Registry
use realm_guard_server.Devices.Registry.{ListedDevice}

abbrev pub device_pk_len : ℕ
device_pk_len = 32

abbrev pub max_name_len : ℕ
max_name_len = 100

pub record RegisterReq : Type 0 where
  pub device_pk : String
  pub name : String

pub record RegisterResp : Type 0 where
  pub id : String

pub record RenameReq : Type 0 where
  pub name : String

pub record DeviceResp : Type 0 where
  pub id : String
  pub name : String
  pub device_pk : String
  pub created_at : ℕ
  pub revoked : Bool

abbrev sized : Bytes → Result StatusCode Bytes
sized pk = if length pk == device_pk_len then ok pk else err bad_request

unfoldable pub parse_device_pk : Platform → String → Result StatusCode Bytes
parse_device_pk p value = Result.◌>>=◌ (ok_or bad_request (p.decode64 value)) sized

unfoldable pub validate_name : String → Result StatusCode String
validate_name name =
    let trimmed = trim name in
    if is_empty trimmed || ltb max_name_len (count trimmed) then err bad_request else ok trimmed

unfoldable pub parse_id : Platform → String → Result StatusCode Uuid
parse_id p value = ok_or bad_request (p.parse_uuid value)

abbrev pub device_resp : Platform → ListedDevice → DeviceResp
device_resp p d = record {
  id = p.uuid_text d.id;
  name = d.name;
  device_pk = p.encode64 d.device_pk;
  created_at = d.created_at;
  revoked = d.revoked;
}

module _ {p : Platform} (account : Uuid) where
  unfoldable pub register : RegisterReq → Exec p StatusCode (StatusCode × RegisterResp)
  unfolding Registry.register
  register body = do
    device_pk ← lift (parse_device_pk p body.device_pk)
    name ← lift (validate_name body.name)
    row ← map_err internal (Registry.register account device_pk name)
    id ← lift (ok_or conflict row)
    pure (created, record { id = p.uuid_text id })

  unfoldable pub list : Exec p StatusCode (List DeviceResp)
  unfolding Registry.list
  list = do rows ← map_err internal (Registry.list account); pure (map (device_resp p) rows)

  unfoldable pub rename : String → RenameReq → Exec p StatusCode StatusCode
  unfolding Registry.rename
  rename id body = do
    device_id ← lift (parse_id p id)
    name ← lift (validate_name body.name)
    known ← map_err internal (Registry.rename account device_id name)
    if known then pure no_content else fail not_found

  unfoldable pub revoke : String → Exec p StatusCode StatusCode
  unfolding Registry.revoke
  revoke id = do
    device_id ← lift (parse_id p id)
    known ← map_err internal (Registry.revoke account device_id)
    if known then pure no_content else fail not_found
