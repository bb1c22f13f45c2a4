-- ===== src/Devices/Heirs.antt =====
-- Theorems on the statements of src/devices.rs: the row of a key stays the same device's.
use realm_guard_server.Prelude.{
  ◌≡◌, refl, subst, inl, inr, some, Option-cases, Bool-cases, List, [], ◌∷◌, ◌++◌, map, arith, ◌==◌,
  bytes_eq_iff, find?, ltb, count_where,
}
use realm_guard_server.Platform.{Bytes}
use realm_guard_server.Database.{Database, DeviceRow, has_account}
use realm_guard_server.Devices.Registry.{has_pk, device_with, is_active, renewed, upsert_device}
use realm_guard_server.Devices.Ownership.{HasUniqueKeys}

-- The row of a key is still the same device's, of the same account.
pub record IsHeir (d e : DeviceRow) : Type 0 where
  pub id : e.id ≡ d.id
  pub account : e.account_id ≡ d.account_id

module _ (pk : Bytes) where
  abbrev pub HasHeir : List DeviceRow → List DeviceRow → Type 0
  HasHeir ds es =
      (d : DeviceRow)
      → device_with pk ds ≡ some d
      → (e : DeviceRow) × (device_with pk es ≡ some e) × IsHeir d e

  pub HasHeir-refl : (ds : List DeviceRow) → HasHeir ds ds
  HasHeir-refl ds d h = (d, h, record { id = refl; account = refl })

  pub map-HasHeir :
      (f : DeviceRow → DeviceRow) (ds : List DeviceRow)
      → ((d : DeviceRow) → (f d).device_pk ≡ d.device_pk)
      → ((d : DeviceRow) → IsHeir d (f d))
      → HasHeir ds (map f ds)
  map-HasHeir f [] keep heir d h = absurd (ground arith)
  map-HasHeir f (x ∷ xs) keep heir d h = elim (Bool-cases (has_pk pk x)) [
    | inl e ↦
        let same : x ≡ d = ground arith in
        (f x, ground (arith, keep x), subst (λ y. IsHeir y (f x)) same (heir x))
    | inr e ↦
        let (y, found, late) = map-HasHeir f xs keep heir d (ground arith) in
        (y, ground (arith, keep x), late)
  ]

  append-HasHeir : (ds : List DeviceRow) (new : DeviceRow) → HasHeir ds (ds ++ new ∷ [])
  append-HasHeir [] new d h = absurd (ground arith)
  append-HasHeir (x ∷ xs) new d h = elim (Bool-cases (has_pk pk x)) [
    | inl e ↦ (d, ground arith, record { id = refl; account = refl })
    | inr e ↦
        let (y, found, late) = append-HasHeir xs new d (ground arith) in (y, ground arith, late)
  ]

  pub upsert_device-HasHeir :
      (new : DeviceRow) (db : Database) → HasHeir db.devices (upsert_device new db).1.devices
  unfolding upsert_device
  upsert_device-HasHeir new db = elim (Option-cases (device_with new.device_pk db.devices)) [
    | inr (old, e) ↦ elim (Bool-cases (old.account_id == new.account_id)) [
      | inl same ↦
          rw (e, upsert_device, same)
            (map-HasHeir (renewed new.device_pk new.name) db.devices (λ d. ground arith)
              (λ d. record { id = ground arith; account = ground arith }))
      | inr differ ↦ rw (e, upsert_device, differ) (HasHeir-refl db.devices)
    ]
    | inl fresh ↦ elim (Bool-cases (ltb 0 (count_where (λ d. d.id == new.id) db.devices))) [
      | inl taken ↦ rw (fresh, upsert_device, taken) (HasHeir-refl db.devices)
      | inr free ↦ elim (Bool-cases (has_account new.account_id db)) [
        | inl known ↦ rw (fresh, upsert_device, free, known) (append-HasHeir db.devices new)
        | inr unknown ↦ rw (fresh, upsert_device, free, unknown) (HasHeir-refl db.devices)
      ]
    ]
  ]

  -- The active row of a key is its only one.
  pub active-only :
      (ds : List DeviceRow) (d : DeviceRow)
      → HasUniqueKeys ds
      → find? (is_active pk) ds ≡ some d
      → device_with pk ds ≡ some d
  active-only [] d u h = h
  active-only (x ∷ xs) d u h = elim (Bool-cases (has_pk pk x)) [
    | inr e ↦ ground (arith, active-only xs d u.1)
    | inl e ↦ elim (Option-cases (find? (is_active pk) xs)) [
      | inl gone ↦ ground arith
      | inr (y, found) ↦
          let late = active-only xs y u.1 found in
          let key = (bytes_eq_iff x.device_pk pk).0 e in absurd (ground arith)
    ]
  ]
