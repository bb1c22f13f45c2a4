-- ===== src/Devices/Tenancy.antt =====
-- Theorems on what the handlers of src/devices_api.rs do to the devices of other accounts.
use realm_guard_server.Prelude.{
  ◌≡◌, refl, subst, ◌≢◌, inl, inr, String, Bool, true, false, none, some, Option-cases, Bool-cases,
  List, [], ◌∷◌, ◌++◌, map, filter, arith, ◌==◌, ==_iff, bytes_eq_iff, if◌then◌else◌,
}
use realm_guard_server.Platform.{Platform, Bytes, Uuid}
use realm_guard_server.Database.{Database, DeviceRow}
use realm_guard_server.Result.{Result-cases}
use realm_guard_server.World.{World}
use realm_guard_server.Devices.Registry.{
  has_pk, device_with, renewed, upsert_device, is_device, is_revocable,
}
use realm_guard_server.Devices.Registry
use realm_guard_server.Devices.Api
use realm_guard_server.Devices.Api.{RegisterReq, RenameReq}
use realm_guard_server.Devices.Ownership.{HasUniqueKeys}

abbrev pub of : Uuid → DeviceRow → Bool
of account d = d.account_id == account

-- Without the key there is nothing to renew.
map-renewed-none :
    (pk : Bytes) (name : String) (ds : List DeviceRow)
    → device_with pk ds ≡ none
    → map (renewed pk name) ds ≡ ds
map-renewed-none pk name [] h = refl
map-renewed-none pk name (d ∷ ds) h = ground (arith, map-renewed-none pk name ds)

module _ (yours : Uuid) where
  -- A map that leaves the rows of the account alone.
  filter-map_other :
      (f : DeviceRow → DeviceRow) (ds : List DeviceRow)
      → ((d : DeviceRow) → (f d).account_id ≡ d.account_id)
      → ((d : DeviceRow) → of yours d ≡ true → f d ≡ d)
      → filter (of yours) (map f ds) ≡ filter (of yours) ds
  filter-map_other f [] keep same = refl
  filter-map_other f (d ∷ ds) keep same = elim (Bool-cases (of yours d)) [
    | inl e ↦ rw (keep d, e, same d e, filter-map_other f ds keep same) refl
    | inr e ↦ rw (keep d, e, filter-map_other f ds keep same) refl
  ]

  filter-append_other :
      (ds : List DeviceRow) (d : DeviceRow)
      → of yours d ≡ false
      → filter (of yours) (ds ++ d ∷ []) ≡ filter (of yours) ds
  filter-append_other [] d e = rw e refl
  filter-append_other (x ∷ xs) d e = rw (filter-append_other xs d e) refl

  filter-renewed :
      (pk : Bytes) (name : String) (old : DeviceRow) (ds : List DeviceRow)
      → HasUniqueKeys ds
      → device_with pk ds ≡ some old
      → of yours old ≡ false
      → filter (of yours) (map (renewed pk name) ds) ≡ filter (of yours) ds
  filter-renewed pk name old [] u h e = refl
  filter-renewed pk name old (d ∷ ds) u h e = elim (Bool-cases (has_pk pk d)) [
    | inl k ↦
        let gone : device_with pk ds ≡ none =
          subst (λ x. device_with x ds ≡ none) ((bytes_eq_iff d.device_pk pk).0 k) u.0 in
        let mine : of yours d ≡ false = ground arith in
        rw (k, mine, map-renewed-none pk name ds gone) refl
    | inr k ↦ rw (k, filter-renewed pk name old ds u.1 (rw k at h) e) refl
  ]

  -- A registration for another account, on keys that are unique.
  upsert_other :
      (new : DeviceRow) (db : Database)
      → HasUniqueKeys db.devices
      → of yours new ≡ false
      → filter (of yours) (upsert_device new db).1.devices ≡ filter (of yours) db.devices
  unfolding upsert_device
  upsert_other new db u e = elim (Option-cases (device_with new.device_pk db.devices)) [
    | inl fresh ↦ ground (arith, filter-append_other db.devices new e)
    | inr (old, k) ↦ elim (Bool-cases (old.account_id == new.account_id)) [
      | inl same ↦
          rw (k, upsert_device, same)
            (filter-renewed new.device_pk new.name old db.devices u k
              (ground (arith, ==_iff old.account_id new.account_id)))
      | inr differ ↦ rw (k, upsert_device, differ) refl
    ]
  ]

  module _ {p : Platform} (mine : Uuid) (apart : mine ≢ yours) (w : World p) where
    abbrev Leaves : World p → Type 0
    Leaves u = filter (of yours) u.db.devices ≡ filter (of yours) w.db.devices

    -- An update of rows of one's own, in place.
    update_other :
        (chosen : DeviceRow → Bool) (set : DeviceRow → DeviceRow)
        → ((d : DeviceRow) → (set d).account_id ≡ d.account_id)
        → ((d : DeviceRow) → chosen d ≡ true → d.account_id ≡ mine)
        → filter (of yours) (map (λ d. if chosen d then set d else d) w.db.devices)
          ≡ filter (of yours) w.db.devices
    update_other chosen set keep own =
        filter-map_other (λ d. if chosen d then set d else d) w.db.devices
          (λ d. ground (arith, keep d)) (λ d e. ground (arith, own d, ==_iff d.account_id yours))

    others-rename : (id : String) (body : RenameReq) → Leaves (Api.rename mine id body w).1
    unfolding Api.rename Registry.rename
    others-rename id body = elim (Result-cases (Api.parse_id p id)) [
      | inr (e, bad) ↦ ground arith
      | inl (device_id, good) ↦ elim (Result-cases (Api.validate_name body.name)) [
        | inr (e, bad) ↦ ground arith
        | inl (name, fine) ↦ ground (
          arith,
          update_other (is_device mine device_id) (λ d. record d { name = name }) (λ d. refl)
              (λ d e. ground (arith, ==_iff d.account_id mine)),
        )
      ]
    ]

    others-revoke : (id : String) → Leaves (Api.revoke mine id w).1
    unfolding Api.revoke Registry.revoke
    others-revoke id = elim (Result-cases (Api.parse_id p id)) [
      | inr (e, bad) ↦ ground arith
      | inl (device_id, good) ↦ ground (
        arith,
        update_other (is_revocable mine device_id) (λ d. record d { revoked_at = some w.now })
            (λ d. refl) (λ d e. ground (arith, ==_iff d.account_id mine)),
      )
    ]

    others-register :
        (body : RegisterReq) → HasUniqueKeys w.db.devices → Leaves (Api.register mine body w).1
    unfolding Api.register Registry.register
    others-register body u = elim (Result-cases (Api.parse_device_pk p body.device_pk)) [
      | inr (e, bad) ↦ ground arith
      | inl (pk, good) ↦ elim (Result-cases (Api.validate_name body.name)) [
        | inr (e, bad) ↦ ground arith
        | inl (name, fine) ↦ ground (
          arith,
          upsert_other
              (record {
                id = p.new_v4 w.draws;
                account_id = mine;
                device_pk = pk;
                name = name;
                created_at = w.now;
                revoked_at = none;
              })
              w.db u (ground (arith, apart, ==_iff mine yours)),
        )
      ]
    ]

-- With device keys that are unique, no request of one account to register, rename or revoke a
-- device, whatever device id it names and however the services answer, changes a row of another
-- account, adds one or removes one.
pub others_kept :
    {p : Platform} (mine yours : Uuid) (w : World p)
    → mine ≢ yours
    → HasUniqueKeys w.db.devices
    → ((body : RegisterReq)
        → filter (of yours) (Api.register mine body w).1.db.devices
          ≡ filter (of yours) w.db.devices)
      × ((id : String) (body : RenameReq)
          → filter (of yours) (Api.rename mine id body w).1.db.devices
            ≡ filter (of yours) w.db.devices)
      × ((id : String)
          → filter (of yours) (Api.revoke mine id w).1.db.devices ≡ filter (of yours) w.db.devices)
others_kept mine yours w apart u = (
  λ body. others-register yours mine apart w body u,
  λ id body. others-rename yours mine apart w id body,
  λ id. others-revoke yours mine apart w id,
)
