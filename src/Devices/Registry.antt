-- ===== src/Devices/Registry.antt =====
-- src/devices.rs: one row for each device key, with logical revocation.
use mathlib.Core.Option
use realm_guard_server.Prelude.{
  ℕ, String, Bool, true, false, ◌&&◌, Option, none, some, List, [], ◌∷◌, ◌++◌, map, ◌==◌, ltb,
  bytes_eq, filter, find?, count_where, if◌then◌else◌,
}
use realm_guard_server.Prelude.Order.{order_by}
use realm_guard_server.Platform.{Platform, Bytes, Uuid}
use realm_guard_server.Database.{Database, DeviceRow, has_account}
use realm_guard_server.Result.{Result, ok, err, Failure, unique_violation, foreign_key_violation}
use realm_guard_server.World.{Exec, postgres, draw, pure, gets, ◌>>=◌}

abbrev pub has_pk : Bytes → DeviceRow → Bool
has_pk device_pk d = bytes_eq d.device_pk device_pk

abbrev pub device_with : Bytes → List DeviceRow → Option DeviceRow
device_with device_pk = find? (has_pk device_pk)

-- SET name = EXCLUDED.name, revoked_at = NULL
abbrev pub renewed : Bytes → String → DeviceRow → DeviceRow
renewed device_pk name d =
    if has_pk device_pk d then record d { name = name; revoked_at = none } else d

-- INSERT INTO devices … ON CONFLICT (device_pk) DO UPDATE … WHERE devices.account_id =
-- EXCLUDED.account_id RETURNING id
unfoldable pub upsert_device : DeviceRow → Database → Result Failure (Option Uuid) × Database
upsert_device new db = elim (device_with new.device_pk db.devices) [
  | some old ↦
      if old.account_id == new.account_id
      then (
        ok (some old.id),
        record db { devices = map (renewed new.device_pk new.name) db.devices },
      )
      else (ok none, db)
  | none ↦
      if ltb 0 (count_where (λ d. d.id == new.id) db.devices)
      then (err unique_violation, db)
      else if has_account new.account_id db
      then (ok (some new.id), record db { devices = db.devices ++ new ∷ [] })
      else (err foreign_key_violation, db)
]

abbrev pub is_null : Option ℕ → Bool
is_null none = true
is_null (some _) = false

-- WHERE id = $ AND account_id = $
abbrev pub is_device : Uuid → Uuid → DeviceRow → Bool
is_device account_id device_id d = d.id == device_id && d.account_id == account_id

-- UPDATE devices SET … WHERE …, with the number of rows affected
abbrev pub update_devices :
    (DeviceRow → Bool) → (DeviceRow → DeviceRow) → Database → Result Failure ℕ × Database
update_devices chosen set db = (
  ok (count_where chosen db.devices),
  record db { devices = map (λ d. if chosen d then set d else d) db.devices },
)

abbrev pub is_revocable : Uuid → Uuid → DeviceRow → Bool
is_revocable account_id device_id d = is_device account_id device_id d && is_null d.revoked_at

abbrev pub is_active : Bytes → DeviceRow → Bool
is_active device_pk d = has_pk device_pk d && is_null d.revoked_at

-- (id, name, device_pk, created_at, revoked)
pub record ListedDevice : Type 0 where
  pub id : Uuid
  pub name : String
  pub device_pk : Bytes
  pub created_at : ℕ
  pub revoked : Bool

abbrev pub listed : DeviceRow → ListedDevice
listed d = record {
  id = d.id;
  name = d.name;
  device_pk = d.device_pk;
  created_at = d.created_at;
  revoked = if is_null d.revoked_at then false else true;
}

module _ {p : Platform} where
  unfoldable pub register : Uuid → Bytes → String → Exec p Failure (Option Uuid)
  unfolding postgres
  register account_id device_pk name = do
    n ← draw
    now ← gets (λ w. w.now)
    postgres (
        upsert_device (record {
          id = p.new_v4 n;
          account_id = account_id;
          device_pk = device_pk;
          name = name;
          created_at = now;
          revoked_at = none;
        }))

  -- ORDER BY created_at; rows of one second stay in the order of the table
  unfoldable pub list : Uuid → Exec p Failure (List ListedDevice)
  unfolding postgres order_by
  list account_id = postgres λ db. (
    ok (
        map listed
          (order_by (λ d. d.created_at) (filter (λ d. d.account_id == account_id) db.devices))),
    db,
  )

  unfoldable pub rename : Uuid → Uuid → String → Exec p Failure Bool
  unfolding postgres
  rename account_id device_id name = do
    rows ←
        postgres (update_devices (is_device account_id device_id) (λ d. record d { name = name }))
    pure (ltb 0 rows)

  unfoldable pub revoke : Uuid → Uuid → Exec p Failure Bool
  unfolding postgres
  revoke account_id device_id = do
    now ← gets (λ w. w.now)
    rows ← postgres (
        update_devices (is_revocable account_id device_id)
          (λ d. record d { revoked_at = some now }))
    pure (ltb 0 rows)

  -- SELECT account_id FROM devices WHERE device_pk = $1 AND revoked_at IS NULL
  unfoldable pub active_account_for_pk : Bytes → Exec p Failure (Option Uuid)
  unfolding postgres
  active_account_for_pk device_pk =
      postgres
        λ db. (ok (Option.map (λ d. d.account_id) (find? (is_active device_pk) db.devices)), db)
