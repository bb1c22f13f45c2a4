-- ===== src/Devices/Revocation.antt =====
-- Theorems on revocation: src/devices_api.rs `revoke` and then src/device_auth_api.rs `verify`.
use realm_guard_server.Prelude.{
  ℕ, ◌≡◌, refl, sym, subst, ◌≢◌, inl, inr, String, true, false, none, some, List, [], ◌∷◌, map,
  arith, bytes_eq, bytes_eq_iff, find?, if◌then◌else◌,
}
use realm_guard_server.Platform.{Platform, Bytes, Uuid}
use realm_guard_server.Database.{DeviceRow}
use realm_guard_server.Result.{ok}
use realm_guard_server.World.{World}
use realm_guard_server.Sync.Rows.{Has}
use realm_guard_server.Devices.Registry.{
  has_pk, device_with, is_null, is_device, update_devices, is_revocable, is_active,
  active_account_for_pk,
}
use realm_guard_server.Devices.Registry
use realm_guard_server.World.{redis}
use realm_guard_server.Cache.{get_del}
use realm_guard_server.Devices.Api
use realm_guard_server.Devices.AuthApi.{VerifyReq, VerifyResp, decode_pk, open_session, verify}
use realm_guard_server.Devices.Ownership.{HasUniqueKeys}

module _ (account device_id : Uuid) (now : ℕ) where
  abbrev revoked : DeviceRow → DeviceRow
  revoked d = if is_revocable account device_id d then record d { revoked_at = some now } else d

  none_with_key :
      (pk : Bytes) (ds : List DeviceRow)
      → device_with pk ds ≡ none
      → find? (is_active pk) (map revoked ds) ≡ none
  none_with_key pk [] h = refl
  none_with_key pk (d ∷ ds) h = ground (arith, none_with_key pk ds)

  other_key :
      (d x : DeviceRow) (ds : List DeviceRow)
      → Has d ds
      → device_with x.device_pk ds ≡ none
      → bytes_eq x.device_pk d.device_pk ≡ false
  other_key d x [] m h = elim m [ ]
  other_key d x (y ∷ ys) (inl e) h =
      rw e
        (ground (arith, bytes_eq_iff x.device_pk y.device_pk, bytes_eq_iff y.device_pk x.device_pk))
  other_key d x (y ∷ ys) (inr m) h = other_key d x ys m (ground arith)

  head_inactive :
      (x : DeviceRow) (xs : List DeviceRow)
      → device_with x.device_pk xs ≡ none
      → is_device account device_id x ≡ true
      → find? (is_active x.device_pk) (map revoked (x ∷ xs)) ≡ none
  head_inactive x xs u h = ground (arith, none_with_key x.device_pk xs u)

  pub inactive :
      (d : DeviceRow) (ds : List DeviceRow)
      → HasUniqueKeys ds
      → Has d ds
      → is_device account device_id d ≡ true
      → find? (is_active d.device_pk) (map revoked ds) ≡ none
  inactive d [] u m h = elim m [ ]
  inactive d (x ∷ xs) u (inl e) h =
      subst (λ k. find? (is_active k.device_pk) (map revoked (x ∷ xs)) ≡ none) (sym e)
        (head_inactive x xs u.0 (subst (λ k. is_device account device_id k ≡ true) e h))
  inactive d (x ∷ xs) u (inr m) h = ground (arith, other_key d x xs m u.0, inactive d xs u.1 m h)

-- No row that is active, no session: a verify that reaches the registry is refused.
pub verify-inactive :
    {p : Platform} (body : VerifyReq) (w : World p) (pk : Bytes) (resp : VerifyResp)
    → decode_pk p body.device_pk ≡ ok pk
    → find? (is_active pk) w.db.devices ≡ none
    → (verify body w).0 ≢ ok resp
unfolding verify redis get_del open_session active_account_for_pk
verify-inactive body w pk resp key h e = ground arith

-- The rows after a revocation that the services carried out.
pub devices-revoke :
    {p : Platform} (account device_id : Uuid) (id : String) (w : World p)
    → w.schedule ≡ []
    → p.parse_uuid id ≡ some device_id
    → (Api.revoke account id w).1.db.devices ≡ map (revoked account device_id w.now) w.db.devices
unfolding Api.revoke Registry.revoke Api.parse_id
devices-revoke account device_id id w up parsed = ground arith

-- With device keys that are unique: once the account of a device has revoked it, with the
-- services up, no request gets a session by its key, whatever the services answer and whatever
-- else of the server changes, until the devices change again; also where the device was revoked
-- before.
pub revoked_refused :
    {p : Platform} (account device_id : Uuid) (id : String) (w u : World p) (d : DeviceRow)
    (body : VerifyReq) (resp : VerifyResp)
    → HasUniqueKeys w.db.devices
    → w.schedule ≡ []
    → p.parse_uuid id ≡ some device_id
    → Has d w.db.devices
    → is_device account device_id d ≡ true
    → u.db.devices ≡ (Api.revoke account id w).1.db.devices
    → decode_pk p body.device_pk ≡ ok d.device_pk
    → (verify body u).0 ≢ ok resp
revoked_refused account device_id id w u d body resp unique up parsed m h same key =
    verify-inactive body u d.device_pk resp key (
      rw (same, devices-revoke account device_id id w up parsed)
        (inactive account device_id w.now d w.db.devices unique m h))
