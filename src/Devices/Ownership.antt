-- ===== src/Devices/Ownership.antt =====
-- Theorems on the INSERT of src/devices.rs `register`: device keys and their rows.
use realm_guard_server.Prelude.{
  ◌≡◌, refl, inl, inr, String, false, none, some, Option-cases, Bool-cases, List, [], ◌∷◌, ◌++◌,
  map, arith, ◌==◌, ==_iff, ltb, bytes_eq, bytes_eq_iff, count_where,
}
use realm_guard_server.Platform.{Bytes}
use realm_guard_server.Database.{Database, DeviceRow, has_account}
use realm_guard_server.Result.{ok}
use realm_guard_server.Devices.Registry.{has_pk, device_with, renewed, upsert_device}

-- UNIQUE (device_pk), as it holds of the rows
abbrev pub HasUniqueKeys : List DeviceRow → Type 0
HasUniqueKeys [] = Unit
HasUniqueKeys (d ∷ ds) = (device_with d.device_pk ds ≡ none) × HasUniqueKeys ds

module _ (device_pk : Bytes) where
  -- The row of a key after a map that keeps keys.
  device_with-map :
      (f : DeviceRow → DeviceRow) (ds : List DeviceRow)
      → ((d : DeviceRow) → (f d).device_pk ≡ d.device_pk)
      → device_with device_pk ds ≡ none
      → device_with device_pk (map f ds) ≡ none
  device_with-map f [] keep h = refl
  device_with-map f (d ∷ ds) keep h = ground (arith, keep d, device_with-map f ds keep)

  device_with-append :
      (ds : List DeviceRow) (new : DeviceRow)
      → device_with device_pk ds ≡ none
      → bytes_eq new.device_pk device_pk ≡ false
      → device_with device_pk (ds ++ new ∷ []) ≡ none
  device_with-append [] new h e = rw e refl
  device_with-append (d ∷ ds) new h e = ground (arith, device_with-append ds new)

pub map-HasUniqueKeys :
    (f : DeviceRow → DeviceRow) (ds : List DeviceRow)
    → ((d : DeviceRow) → (f d).device_pk ≡ d.device_pk)
    → HasUniqueKeys ds
    → HasUniqueKeys (map f ds)
map-HasUniqueKeys f [] keep h = tt
map-HasUniqueKeys f (d ∷ ds) keep h =
    (rw (keep d) (device_with-map d.device_pk f ds keep h.0), map-HasUniqueKeys f ds keep h.1)

append-HasUniqueKeys :
    (ds : List DeviceRow) (new : DeviceRow)
    → device_with new.device_pk ds ≡ none
    → HasUniqueKeys ds
    → HasUniqueKeys (ds ++ new ∷ [])
append-HasUniqueKeys [] new h k = (refl, tt)
append-HasUniqueKeys (d ∷ ds) new h k = (
  device_with-append d.device_pk ds new k.0 (
      ground
        (arith, bytes_eq_iff d.device_pk new.device_pk, bytes_eq_iff new.device_pk d.device_pk)),
  append-HasUniqueKeys ds new (ground arith) k.1,
)

renewed_pk :
    (device_pk : Bytes) (name : String) (d : DeviceRow)
    → (renewed device_pk name d).device_pk ≡ d.device_pk
renewed_pk device_pk name d = ground arith

-- Registering a device keeps the keys unique, whatever it answers.
pub upsert_device-HasUniqueKeys :
    (new : DeviceRow) (db : Database)
    → HasUniqueKeys db.devices
    → HasUniqueKeys (upsert_device new db).1.devices
unfolding upsert_device
upsert_device-HasUniqueKeys new db h = elim (Option-cases (device_with new.device_pk db.devices)) [
  | inl fresh ↦ elim (Bool-cases (ltb 0 (count_where (λ d. d.id == new.id) db.devices))) [
    | inl taken ↦ rw (fresh, upsert_device, taken) h
    | inr free ↦ elim (Bool-cases (has_account new.account_id db)) [
      | inl known ↦
          rw (fresh, upsert_device, free, known) (append-HasUniqueKeys db.devices new fresh h)
      | inr unknown ↦ rw (fresh, upsert_device, free, unknown) h
    ]
  ]
  | inr (old, e) ↦ elim (Bool-cases (old.account_id == new.account_id)) [
    | inl same ↦
        rw (e, upsert_device, same)
          (map-HasUniqueKeys (renewed new.device_pk new.name) db.devices
            (renewed_pk new.device_pk new.name) h)
    | inr differ ↦ rw (e, upsert_device, differ) h
  ]
]

device_with-renewed :
    (device_pk : Bytes) (name : String) (old : DeviceRow) (ds : List DeviceRow)
    → device_with device_pk ds ≡ some old
    → device_with device_pk (map (renewed device_pk name) ds)
      ≡ some (record old { name = name; revoked_at = none })
device_with-renewed device_pk name old [] h = cc
device_with-renewed device_pk name old (d ∷ ds) h = elim (Bool-cases (has_pk device_pk d)) [
  | inl e ↦ rw e (ground arith)
  | inr e ↦ rw e (ground (arith, device_with-renewed device_pk name old ds))
]

module _ (new old : DeviceRow) (db : Database) where
  -- A key that is registered already, by its own account: the answer is the id that it has, and its
  -- row has the new name, the revocation lifted, and is else the same.
  pub register_again :
      device_with new.device_pk db.devices ≡ some old
      → old.account_id ≡ new.account_id
      → ((upsert_device new db).0 ≡ ok (some old.id))
        × (device_with new.device_pk (upsert_device new db).1.devices
            ≡ some (record old { name = new.name; revoked_at = none }))
  unfolding upsert_device
  register_again h same = (
    ground (arith, ==_iff old.account_id new.account_id),
    ground (
      arith,
      ==_iff old.account_id new.account_id,
      device_with-renewed new.device_pk new.name old db.devices h,
    ),
  )
