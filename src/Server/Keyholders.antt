-- ===== src/Server/Keyholders.antt =====
-- Theorems on the keys of src/devices.rs in the life of the whole application of src/lib.rs.
use realm_guard_server.Prelude.{String, ◌≡◌, ap, ◌∙◌, sym, subst, inl, inr, some, arith, ◌+◌}
use realm_guard_server.Platform.{Platform, Bytes, Uuid}
use realm_guard_server.Database.{DeviceRow}
use realm_guard_server.Result.{ok}
use realm_guard_server.World.{World}
use realm_guard_server.Devices.Registry.{device_with}
use realm_guard_server.Devices.Api as Devices
use realm_guard_server.Auth.Api as Auth
use realm_guard_server.Relay.Vault
use realm_guard_server.Sync.Api
use realm_guard_server.Server.App.{Framework, respond}
use realm_guard_server.Server.Frame.{IsFrame, respond-frame}
use realm_guard_server.Server.Still
use realm_guard_server.Server.Writers.{Writers, from_request_parts-IsFramed, handled}
use realm_guard_server.Server.Sessions.{Life, born, after, asked, passed}
use realm_guard_server.Devices.Effects.{devices-register, devices-rename, devices-revoke}
use realm_guard_server.Devices.Unique.{
  register-HasUniqueKeys, rename-HasUniqueKeys, revoke-HasUniqueKeys,
}
use realm_guard_server.Devices.Ownership.{HasUniqueKeys}
use realm_guard_server.Devices.AuthApi.{VerifyReq, VerifyResp, decode_pk, verify}
use realm_guard_server.Devices.Openings.{verify-stored}
use realm_guard_server.Auth.Sessions.{session_key, session_ttl_secs}
use realm_guard_server.Devices.Heirs.{
  HasHeir, HasHeir-refl, map-HasHeir, upsert_device-HasHeir, active-only,
}

module _ {p : Platform} (pk : Bytes) where
  -- Unique keys stay so, and the key has an heir.
  abbrev pub IsInherited : World p → World p → Type 0
  IsInherited w v =
      HasUniqueKeys w.db.devices → HasUniqueKeys v.db.devices × HasHeir pk w.db.devices v.db.devices

  pub IsInherited-IsFrame : IsFrame IsInherited
  IsInherited-IsFrame = record {
    same = λ w u. (u, HasHeir-refl pk w.db.devices);
    joined = λ a b c h k u.
        let first = h u in
        let second = k first.0 in
        (
          second.0,
          λ d at_a.
              let (e, at_b, early) = first.1 d at_a in
              let (f, at_c, late) = second.1 e at_b in
              (f, at_c, record { id = late.id ∙ early.id; account = late.account ∙ early.account }),
        );
  }

  unmoved : (w v : World p) → v.db.devices ≡ w.db.devices → IsInherited w v
  unmoved w v e u = (
    subst HasUniqueKeys (sym e) u,
    subst (HasHeir pk w.db.devices) (sym e) (HasHeir-refl pk w.db.devices),
  )

  module _ (mine : Uuid) (w : World p) where
    register-IsInherited : (b : Devices.RegisterReq) → IsInherited w (Devices.register mine b w).1
    register-IsInherited b u = (
      register-HasUniqueKeys mine w u b,
      elim (devices-register mine w b) [
        | inl e ↦ rw e (HasHeir-refl pk w.db.devices)
        | inr (new, _, _, e) ↦ rw e (upsert_device-HasHeir pk new w.db)
      ],
    )

    rename-IsInherited :
        (id : String) (b : Devices.RenameReq) → IsInherited w (Devices.rename mine id b w).1
    rename-IsInherited id b u = (
      rename-HasUniqueKeys mine w u id b,
      elim (devices-rename mine w id b) [
        | inl e ↦ rw e (HasHeir-refl pk w.db.devices)
        | inr (device_id, name, _, e) ↦ rw e (
            map-HasHeir pk _ w.db.devices (λ d. ground arith)
              (λ d. record { id = ground arith; account = ground arith }))
      ],
    )

    pub revoke-IsInherited : (id : String) → IsInherited w (Devices.revoke mine id w).1
    revoke-IsInherited id u = (
      revoke-HasUniqueKeys mine w u id,
      elim (devices-revoke mine w id) [
        | inl e ↦ rw e (HasHeir-refl pk w.db.devices)
        | inr (device_id, e) ↦ rw e (
            map-HasHeir pk _ w.db.devices (λ d. ground arith)
              (λ d. record { id = ground arith; account = ground arith }))
      ],
    )

  IsInherited-Writers : Writers IsInherited (λ _. Unit {0})
  IsInherited-Writers = record {
    unmoved = λ w v e. unmoved w v (ap (λ db. db.devices) e);
    register_finish = λ b w.
        unmoved w (Auth.register_finish b w).1
          (ap (λ db. db.devices) (Still.register_finish-IsStill b w));
    store = λ mine _ b w.
        unmoved w (Vault.store mine b w).1 (ap (λ db. db.devices) (Still.store-IsStill mine b w));
    register = λ mine _ b w. register-IsInherited mine w b;
    revoke = λ mine _ id w. revoke-IsInherited mine w id;
    rename = λ mine _ id b w. rename-IsInherited mine w id b;
    push = λ mine _ b w.
        unmoved w (Api.push mine b w).1 (ap (λ db. db.devices) (Still.push-IsStill mine b w));
    put_snapshot = λ mine _ b w.
        unmoved w (Api.put_snapshot mine b w).1
          (ap (λ db. db.devices) (Still.put_snapshot-IsStill mine b w));
  }

  pub Life-IsInherited : (fw : Framework) {w v : World p} → Life fw w v → IsInherited w v
  Life-IsInherited fw {w} born = λ u. (u, HasHeir-refl pk w.db.devices)
  Life-IsInherited fw {w} (after {u = x} l (asked req)) =
      IsInherited-IsFrame.joined w x (respond fw req x).1 (Life-IsInherited fw l) (
        respond-frame IsInherited IsInherited-IsFrame (λ _. Unit {0}) fw
          (from_request_parts-IsFramed IsInherited (λ _. Unit {0}) IsInherited-Writers)
          (handled IsInherited (λ _. Unit {0}) IsInherited-Writers fw)
          (λ y m unique. (unique, HasHeir-refl pk y.db.devices)) req x (λ account named. tt))
  Life-IsInherited fw (after l (passed t os)) = Life-IsInherited fw l

-- A device key belongs to one device of one account, for good. With device keys that are unique, one
-- of which has a row: after any requests by anyone to any path, however the services answered them,
-- and after any time, the keys are unique, and the key still has a row, with the same id and account.
pub key_for_good :
    {p : Platform} (fw : Framework) (w v : World p) (pk : Bytes) (d : DeviceRow)
    → HasUniqueKeys w.db.devices
    → device_with pk w.db.devices ≡ some d
    → Life fw w v
    → HasUniqueKeys v.db.devices
      × ((e : DeviceRow) × (device_with pk v.db.devices ≡ some e)
          × (e.id ≡ d.id)
          × (e.account_id ≡ d.account_id))
key_for_good fw w v pk d unique row life =
    let (still, heir) = Life-IsInherited pk fw life unique in
    let (e, found, same) = heir d row in (still, (e, found, same.id, same.account))

-- A device key signs in for one account only, for good. With device keys that are unique, one of which
-- has a row: after any requests by anyone to any path, however the services answered them, and after
-- any time, where `verify` then opens a session by that key, what Redis holds for the token is the
-- account of that row, for seven days.
pub key_signs_in :
    {p : Platform} (fw : Framework) (w v : World p) (pk : Bytes) (d : DeviceRow) (body : VerifyReq)
    (resp : VerifyResp)
    → HasUniqueKeys w.db.devices
    → device_with pk w.db.devices ≡ some d
    → Life fw w v
    → decode_pk p body.device_pk ≡ ok pk
    → (verify body v).0 ≡ ok resp
    → p.redis.entry (verify body v).1.cache (session_key resp.session_token)
      ≡ some (record {
        value = p.redis.of_text (p.uuid_text d.account_id);
        expires = some (v.now + session_ttl_secs);
      })
key_signs_in fw w v pk d body resp unique row life key signed =
    let (still, (e, found, _, account)) = key_for_good fw w v pk d unique row life in
    let (a, active, stored) = verify-stored body v resp pk key signed in
    let only = active-only pk v.db.devices a still active in
    let one : a.account_id ≡ d.account_id = ground (arith, account) in rw (← one) stored
