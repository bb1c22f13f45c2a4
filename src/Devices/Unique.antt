-- ===== src/Devices/Unique.antt =====
-- Theorems on the handlers of src/devices_api.rs: device keys stay unique.
use realm_guard_server.Prelude.{String, inl, inr, arith}
use realm_guard_server.Platform.{Platform, Uuid}
use realm_guard_server.World.{World}
use realm_guard_server.Devices.Api as Devices
use realm_guard_server.Devices.Effects.{devices-register, devices-rename, devices-revoke}
use realm_guard_server.Devices.Ownership.{
  HasUniqueKeys, map-HasUniqueKeys, upsert_device-HasUniqueKeys,
}

module _ {p : Platform} (mine : Uuid) (w : World p) (unique : HasUniqueKeys w.db.devices) where
  pub register-HasUniqueKeys :
      (b : Devices.RegisterReq) → HasUniqueKeys (Devices.register mine b w).1.db.devices
  register-HasUniqueKeys b = elim (devices-register mine w b) [
    | inl e ↦ rw e unique
    | inr (new, _, _, e) ↦ rw e (upsert_device-HasUniqueKeys new w.db unique)
  ]

  pub rename-HasUniqueKeys :
      (id : String) (b : Devices.RenameReq)
      → HasUniqueKeys (Devices.rename mine id b w).1.db.devices
  rename-HasUniqueKeys id b = elim (devices-rename mine w id b) [
    | inl e ↦ rw e unique
    | inr (device_id, name, _, e) ↦
        rw e (map-HasUniqueKeys _ w.db.devices (λ d. ground arith) unique)
  ]

  pub revoke-HasUniqueKeys : (id : String) → HasUniqueKeys (Devices.revoke mine id w).1.db.devices
  revoke-HasUniqueKeys id = elim (devices-revoke mine w id) [
    | inl e ↦ rw e unique
    | inr (device_id, e) ↦ rw e (map-HasUniqueKeys _ w.db.devices (λ d. ground arith) unique)
  ]
