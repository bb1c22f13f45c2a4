-- ===== src/Server/Intact.antt =====
-- The handlers of src/lib.rs keep the constraints of the schema but the primary keys.
use realm_guard_server.Prelude.{String, sym, subst, inl, inr, arith}
use realm_guard_server.Platform.{Platform, Uuid}
use realm_guard_server.World.{World}
use realm_guard_server.Auth.Api.{RegisterFinishReq, register_finish}
use realm_guard_server.Relay.Vault
use realm_guard_server.Relay.Vault.{upsert_row}
use realm_guard_server.Devices.Api as Devices
use realm_guard_server.Devices.Effects.{devices-register, devices-rename, devices-revoke}
use realm_guard_server.Devices.Unique.{
  register-HasUniqueKeys, rename-HasUniqueKeys, revoke-HasUniqueKeys,
}
use realm_guard_server.Sync.Api
use realm_guard_server.Sync.Effects.{db-push, db-put_snapshot, snapshot_row}
use realm_guard_server.Sync.Snapshots.{upsert_snapshot}
use realm_guard_server.Server.Still
use realm_guard_server.Server.Still.{but_devices}
use realm_guard_server.Server.Writers.{Writers}
use realm_guard_server.Server.Schema
use realm_guard_server.Server.Preserved.{Keeps, unmoved}
use realm_guard_server.Server.Written.{db-register_finish, db-store, devices_only}

module _ {p : Platform} where
  register_finish-KeepsIntact :
      (b : RegisterFinishReq) (w : World p) → Keeps Schema.IsIntact w (register_finish b w).1
  register_finish-KeepsIntact b w h = elim (db-register_finish b w) [
    | inl e ↦ unmoved Schema.IsIntact w (register_finish b w).1 e h
    | inr (a, _, _, e) ↦ subst Schema.IsIntact (sym e) (Schema.insert_row-IsIntact w.db h a)
  ]

  module _ (mine : Uuid) where
    store-KeepsIntact :
        (b : Vault.StoreReq) (w : World p) → Keeps Schema.IsIntact w (Vault.store mine b w).1
    store-KeepsIntact b w h = elim (db-store mine b w) [
      | inl e ↦ unmoved Schema.IsIntact w (Vault.store mine b w).1 e h
      | inr (new, e) ↦ subst Schema.IsIntact (sym e) (Schema.upsert_row-IsIntact w.db h new)
    ]

    register-KeepsIntact :
        (b : Devices.RegisterReq) (w : World p)
        → Keeps Schema.IsIntact w (Devices.register mine b w).1
    register-KeepsIntact b w h =
        let v = (Devices.register mine b w).1 in
        devices_only Schema.IsIntact w v (Still.register-IsStill mine b w) (
          Schema.with_devices w.db h v.db.devices (register-HasUniqueKeys mine w h.keys b)
            (elim (devices-register mine w b) [
              | inl e ↦ rw e h.devices
              | inr (new, _, _, e) ↦ rw e (Schema.upsert_device-All w.db h new)
            ]))

    rename-KeepsIntact :
        (id : String) (b : Devices.RenameReq) (w : World p)
        → Keeps Schema.IsIntact w (Devices.rename mine id b w).1
    rename-KeepsIntact id b w h =
        let v = (Devices.rename mine id b w).1 in
        devices_only Schema.IsIntact w v (Still.rename-IsStill mine id b w) (
          Schema.with_devices w.db h v.db.devices (rename-HasUniqueKeys mine w h.keys id b)
            (elim (devices-rename mine w id b) [
              | inl e ↦ rw e h.devices
              | inr (device_id, name, _, e) ↦
                  rw e (Schema.All-map _ _ w.db.devices (λ d k. ground (arith, k)) h.devices)
            ]))

    revoke-KeepsIntact :
        (id : String) (w : World p) → Keeps Schema.IsIntact w (Devices.revoke mine id w).1
    revoke-KeepsIntact id w h =
        let v = (Devices.revoke mine id w).1 in
        devices_only Schema.IsIntact w v (Still.revoke-IsStill mine id w) (
          Schema.with_devices w.db h v.db.devices (revoke-HasUniqueKeys mine w h.keys id)
            (elim (devices-revoke mine w id) [
              | inl e ↦ rw e h.devices
              | inr (device_id, e) ↦
                  rw e (Schema.All-map _ _ w.db.devices (λ d k. ground (arith, k)) h.devices)
            ]))

    push-KeepsIntact :
        (b : Api.PushReq) (w : World p) → Keeps Schema.IsIntact w (Api.push mine b w).1
    push-KeepsIntact b w h = elim (db-push mine w b) [
      | inl e ↦ unmoved Schema.IsIntact w (Api.push mine b w).1 e h
      | inr (payload, _, e) ↦
          subst Schema.IsIntact (sym e) (Schema.insert_delta-IsIntact w.db h mine payload)
    ]

    put_snapshot-KeepsIntact :
        (b : Api.SnapshotReq) (w : World p) → Keeps Schema.IsIntact w (Api.put_snapshot mine b w).1
    put_snapshot-KeepsIntact b w h = elim (db-put_snapshot mine w b) [
      | inl e ↦ unmoved Schema.IsIntact w (Api.put_snapshot mine b w).1 e h
      | inr (payload, _, done, e) ↦
          let new = snapshot_row mine w payload b.covers_seq in
          subst Schema.IsIntact (sym e) (
            Schema.delete_covered-IsIntact mine b.covers_seq (upsert_snapshot new w.db).1
              (Schema.upsert_snapshot-IsIntact w.db h new))
    ]

  pub KeepsIntact-Writers : Writers {p = p} (Keeps Schema.IsIntact) (λ _. Unit {0})
  KeepsIntact-Writers = record {
    unmoved = unmoved Schema.IsIntact;
    register_finish = register_finish-KeepsIntact;
    store = λ mine _. store-KeepsIntact mine;
    register = λ mine _. register-KeepsIntact mine;
    revoke = λ mine _. revoke-KeepsIntact mine;
    rename = λ mine _. rename-KeepsIntact mine;
    push = λ mine _. push-KeepsIntact mine;
    put_snapshot = λ mine _. put_snapshot-KeepsIntact mine;
  }
