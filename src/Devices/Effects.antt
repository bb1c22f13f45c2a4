-- ===== src/Devices/Effects.antt =====
-- What the handlers of src/devices_api.rs do to the rows of devices, on every branch.
use realm_guard_server.Prelude.{◌⊎◌, ◌≡◌, inl, inr, none, some, map, String, arith, if◌then◌else◌}
use realm_guard_server.Platform.{Platform, Uuid}
use realm_guard_server.Database.{DeviceRow}
use realm_guard_server.Result.{ok, Result-cases}
use realm_guard_server.World.{World, first, Outcome-cases}
use realm_guard_server.Devices.Registry.{is_device, is_revocable, upsert_device}
use realm_guard_server.Devices.Registry
use realm_guard_server.Devices.Api as Devices

module _ {p : Platform} (mine : Uuid) (w : World p) where
  pub devices-register :
      (b : Devices.RegisterReq)
      → ((Devices.register mine b w).1.db.devices ≡ w.db.devices)
        ⊎ ((new : DeviceRow) × (Devices.parse_device_pk p b.device_pk ≡ ok new.device_pk)
            × (Devices.validate_name b.name ≡ ok new.name)
            × ((Devices.register mine b w).1.db.devices ≡ (upsert_device new w.db).1.devices))
  unfolding Devices.register Registry.register
  devices-register b = elim (Result-cases (Devices.parse_device_pk p b.device_pk)) [
    | inr (e, bad) ↦ inl (ground arith)
    | inl (pk, good) ↦ elim (Result-cases (Devices.validate_name b.name)) [
      | inr (e, bad) ↦ inl (ground arith)
      | inl (name, fine) ↦ elim (Outcome-cases (first w.schedule)) [
        | inl r ↦ inl (ground arith)
        | inr r ↦ inr (
          record {
            id = p.new_v4 w.draws;
            account_id = mine;
            device_pk = pk;
            name = name;
            created_at = w.now;
            revoked_at = none;
          },
          good,
          fine,
          ground arith,
        )
      ]
    ]
  ]

  pub devices-rename :
      (id : String) (b : Devices.RenameReq)
      → ((Devices.rename mine id b w).1.db.devices ≡ w.db.devices)
        ⊎ ((device_id : Uuid) × (name : String) × (Devices.validate_name b.name ≡ ok name)
            × ((Devices.rename mine id b w).1.db.devices
                ≡ map
                    (λ d. if is_device mine device_id d then record d { name = name } else d)
                    w.db.devices))
  unfolding Devices.rename Registry.rename
  devices-rename id b = elim (Result-cases (Devices.parse_id p id)) [
    | inr (e, bad) ↦ inl (ground arith)
    | inl (device_id, good) ↦ elim (Result-cases (Devices.validate_name b.name)) [
      | inr (e, bad) ↦ inl (ground arith)
      | inl (name, fine) ↦ elim (Outcome-cases (first w.schedule)) [
        | inl r ↦ inl (ground arith)
        | inr r ↦ inr (device_id, name, fine, ground arith)
      ]
    ]
  ]

  pub devices-revoke :
      (id : String)
      → ((Devices.revoke mine id w).1.db.devices ≡ w.db.devices)
        ⊎ ((device_id : Uuid) × ((Devices.revoke mine id w).1.db.devices
              ≡ map
                  (λ d.
                    if is_revocable mine device_id d
                    then record d { revoked_at = some w.now }
                    else d)
                  w.db.devices))
  unfolding Devices.revoke Registry.revoke
  devices-revoke id = elim (Result-cases (Devices.parse_id p id)) [
    | inr (e, bad) ↦ inl (ground arith)
    | inl (device_id, good) ↦ elim (Outcome-cases (first w.schedule)) [
      | inl r ↦ inl (ground arith)
      | inr r ↦ inr (device_id, ground arith)
    ]
  ]
