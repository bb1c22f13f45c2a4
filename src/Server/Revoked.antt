-- ===== src/Server/Revoked.antt =====
-- Theorems on a revoked device of src/devices.rs in the life of the whole application of src/lib.rs.
use realm_guard_server.Prelude.{
  String, ◌≡◌, ◌≢◌, ap, inl, inr, true, none, some, Option-cases, Bool-cases, Bool, List, [], ◌∷◌,
  filter, find?, arith, ==_refl, ==_iff, bytes_eq_iff,
}
use realm_guard_server.Platform.{Platform, Uuid}
use realm_guard_server.Database.{DeviceRow}
use realm_guard_server.Result.{ok}
use realm_guard_server.World.{World}
use realm_guard_server.Sync.Rows.{Has}
use realm_guard_server.Devices.Registry.{device_with, is_device, is_active, has_pk}
use realm_guard_server.Devices.Api as Devices
use realm_guard_server.Devices.AuthApi.{VerifyReq, VerifyResp, decode_pk, verify}
use realm_guard_server.Devices.Ownership.{HasUniqueKeys}
use realm_guard_server.Devices.Unique.{revoke-HasUniqueKeys}
use realm_guard_server.Devices.Heirs.{active-only}
use realm_guard_server.Devices.Tenancy.{of}
use realm_guard_server.Devices.Revocation.{verify-inactive, devices-revoke, inactive}
use realm_guard_server.Server.App.{Framework}
use realm_guard_server.Server.Sessions.{Life, born, after}
use realm_guard_server.Server.Sessions
use realm_guard_server.Server.Keyholders.{IsInherited-IsFrame, Life-IsInherited, revoke-IsInherited}
use realm_guard_server.Server.Apart.{Absence, begun, asked, passed, undisturbed}

-- An absence is a part of the application's life.
Absence-Life :
    {p : Platform} (fw : Framework) (account : Uuid) {w v : World p}
    → Absence fw account w v
    → Life fw w v
Absence-Life fw account begun = born
Absence-Life fw account (asked req l foreign) =
    after (Absence-Life fw account l) (Sessions.asked req)
Absence-Life fw account (passed t os l) = after (Absence-Life fw account l) (Sessions.passed t os)

-- A row under a unique key is found by it.
device_with-Has :
    (d : DeviceRow) (ds : List DeviceRow)
    → HasUniqueKeys ds
    → Has d ds
    → device_with d.device_pk ds ≡ some d
device_with-Has d [] u m = elim m [ ]
device_with-Has d (x ∷ xs) u (inl e) =
    rw (← e) (ground (arith, bytes_eq_iff d.device_pk d.device_pk))
device_with-Has d (x ∷ xs) u (inr m) =
    let late = device_with-Has d xs u.1 m in
    elim (Bool-cases (has_pk d.device_pk x)) [
      | inl e ↦ let same = (bytes_eq_iff x.device_pk d.device_pk).0 e in absurd (ground arith)
      | inr e ↦ ground arith
    ]

module _ (chosen mine : DeviceRow → Bool) where
  find?-filter-some :
      (ds : List DeviceRow) (d : DeviceRow)
      → find? chosen ds ≡ some d
      → mine d ≡ true
      → find? chosen (filter mine ds) ≡ some d
  find?-filter-some [] d h e = h
  find?-filter-some (x ∷ xs) d h e = elim (Bool-cases (chosen x)) [
    | inl c ↦ let same : x ≡ d = ground arith in let own : mine x ≡ true = rw same e in ground arith
    | inr c ↦ let late = find?-filter-some xs d (ground arith) e in ground arith
  ]

  find?-filter-none :
      (ds : List DeviceRow) → find? chosen ds ≡ none → find? chosen (filter mine ds) ≡ none
  find?-filter-none [] h = h
  find?-filter-none (x ∷ xs) h = ground (arith, find?-filter-none xs)

-- A revoked device stays out, unless its own account lets it in again. With device keys that are
-- unique: once the account of a device has revoked it, with the services up, then after any requests
-- by anyone to any path but none with a session of that account, however the services answered them,
-- and after any time, no request gets a session by the device's key.
pub revoked_for_good :
    {p : Platform} (fw : Framework) (account device_id : Uuid) (id : String) (w v : World p)
    (d : DeviceRow) (body : VerifyReq) (resp : VerifyResp)
    → HasUniqueKeys w.db.devices
    → w.schedule ≡ []
    → p.parse_uuid id ≡ some device_id
    → Has d w.db.devices
    → is_device account device_id d ≡ true
    → Absence fw account (Devices.revoke account id w).1 v
    → decode_pk p body.device_pk ≡ ok d.device_pk
    → (verify body v).0 ≢ ok resp
revoked_for_good {p} fw account device_id id w v d body resp unique up parsed m own absent key =
    let u = (Devices.revoke account id w).1 in
    let gone : find? (is_active d.device_pk) u.db.devices ≡ none =
      rw (devices-revoke account device_id id w up parsed)
        (inactive account device_id w.now d w.db.devices unique m own) in
    let still = undisturbed fw account u v (revoke-HasUniqueKeys account w unique id) absent in
    let (_, heir) =
      (IsInherited-IsFrame d.device_pk).joined w u v (revoke-IsInherited d.device_pk account w id)
        (Life-IsInherited d.device_pk fw (Absence-Life fw account absent)) unique in
    let (e, found, same) = heir d (device_with-Has d w.db.devices unique m) in
    elim (Option-cases (find? (is_active d.device_pk) v.db.devices)) [
      | inl none_active ↦ verify-inactive body v d.device_pk resp key none_active
      | inr (a, active) ↦
          let only = active-only d.device_pk v.db.devices a still.0 active in
          let owner : a.account_id ≡ account =
            ground (arith, same.account, ==_iff d.account_id account) in
          let mine : of account a ≡ true = rw owner (==_refl account) in
          let there =
            find?-filter-some (is_active d.device_pk) (of account) v.db.devices a active mine in
          let absent_there =
            find?-filter-none (is_active d.device_pk) (of account) u.db.devices gone in
          let rows = ap (find? (is_active d.device_pk)) still.1.devices in absurd (ground arith)
    ]
