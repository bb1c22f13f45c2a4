-- ===== src/Server/Apart.antt =====
-- Theorems on what one account's requests to the application of src/lib.rs do to what another has.
use realm_guard_server.Prelude.{◌≡◌, ◌≢◌, refl, ap, ◌∙◌, sym, subst, List, filter}
use realm_guard_server.Platform.{Platform, Uuid}
use realm_guard_server.Database.{Database}
use realm_guard_server.Result.{ok}
use realm_guard_server.World.{World}
use realm_guard_server.Auth.Api.{RegisterFinishReq, register_finish, from_request_parts}
use realm_guard_server.Relay.Vault
use realm_guard_server.Relay.Vault.{vault_key_of, set_vault_key, upsert_row}
use realm_guard_server.Devices.Api as Devices
use realm_guard_server.Devices.Ownership.{HasUniqueKeys}
use realm_guard_server.Devices.Tenancy.{of, others_kept}
use realm_guard_server.Sync.Service
use realm_guard_server.Sync.Isolation.{HasSame, handle-HasSame}
use realm_guard_server.Server.App.{Request, Framework, respond}
use realm_guard_server.Server.Frame.{IsFrame, respond-frame}
use realm_guard_server.Server.Still
use realm_guard_server.Server.Still.{but_devices}
use realm_guard_server.Sync.Api
use realm_guard_server.Sync.Deltas.{is_of}
use realm_guard_server.Sync.Snapshots.{snapshot_of}
use realm_guard_server.Relay.Tenancy.{store-other}
use realm_guard_server.Devices.Unique.{
  register-HasUniqueKeys, rename-HasUniqueKeys, revoke-HasUniqueKeys,
}
use realm_guard_server.World.{Outcome}
use realm_guard_server.Prelude.{ℕ, ◌+◌}
use realm_guard_server.Server.Writers.{Writers, from_request_parts-IsFramed, handled}

-- What an account has in two states of the tables is the same: its devices, its vault key, its deltas
-- and its snapshot.
pub record HasOwn (account : Uuid) (a b : Database) : Type 0 where
  pub devices : filter (of account) a.devices ≡ filter (of account) b.devices
  pub vault_key : vault_key_of account a.vault_keys ≡ vault_key_of account b.vault_keys
  pub sync : HasSame account a b

HasOwn-refl : (account : Uuid) (db : Database) → HasOwn account db db
HasOwn-refl account db = record {
  devices = refl;
  vault_key = refl;
  sync = record { deltas = refl; snapshot = refl };
}

HasOwn-trans :
    (account : Uuid) (a b c : Database)
    → HasOwn account a b
    → HasOwn account b c
    → HasOwn account a c
HasOwn-trans account a b c h k = record {
  devices = h.devices ∙ k.devices;
  vault_key = h.vault_key ∙ k.vault_key;
  sync = record {
    deltas = h.sync.deltas ∙ k.sync.deltas;
    snapshot = h.sync.snapshot ∙ k.sync.snapshot;
  };
}

module _ {p : Platform} (yours : Uuid) where
  -- Unique keys stay so, and the account has what it had.
  abbrev IsApart : World p → World p → Type 0
  IsApart w v = HasUniqueKeys w.db.devices → HasUniqueKeys v.db.devices × HasOwn yours v.db w.db

  IsApart-IsFrame : IsFrame IsApart
  IsApart-IsFrame = record {
    same = λ w u. (u, HasOwn-refl yours w.db);
    joined = λ a b c h k u.
        let first = h u in
        let second = k first.0 in (second.0, HasOwn-trans yours c.db b.db a.db second.1 first.1);
  }

  unmoved : (w v : World p) → v.db ≡ w.db → IsApart w v
  unmoved w v e u = (
    subst (λ db. HasUniqueKeys db.devices) (sym e) u,
    subst (λ db. HasOwn yours db w.db) (sym e) (HasOwn-refl yours w.db),
  )

  -- Where the devices are as they were.
  beside :
      (w v : World p)
      → v.db.devices ≡ w.db.devices
      → vault_key_of yours v.db.vault_keys ≡ vault_key_of yours w.db.vault_keys
      → HasSame yours v.db w.db
      → IsApart w v
  beside w v e key sync u = (
    subst HasUniqueKeys (sym e) u,
    record { devices = ap (filter (of yours)) e; vault_key = key; sync = sync },
  )

  -- Where the log and the snapshots are as they were.
  unsynced :
      (w v : World p)
      → v.db.deltas ≡ w.db.deltas
      → v.db.snapshots ≡ w.db.snapshots
      → HasSame yours v.db w.db
  unsynced w v deltas snapshots = record {
    deltas = ap (filter (is_of yours)) deltas;
    snapshot = ap (snapshot_of yours) snapshots;
  }

  -- Where all but the devices is as it was.
  but-devices :
      (w v : World p)
      → but_devices v.db ≡ but_devices w.db
      → filter (of yours) v.db.devices ≡ filter (of yours) w.db.devices
      → HasOwn yours v.db w.db
  but-devices w v e devices = record {
    devices = devices;
    vault_key = ap (λ db. vault_key_of yours db.vault_keys) e;
    sync = unsynced w v (ap (λ db. db.deltas) e) (ap (λ db. db.snapshots) e);
  }

  register_finish-IsApart :
      (b : RegisterFinishReq) (w : World p) → IsApart w (register_finish b w).1
  register_finish-IsApart b w =
      let v = (register_finish b w).1 in
      let e = Still.register_finish-IsStill b w in
      beside w v (ap (λ db. db.devices) e) (ap (λ db. vault_key_of yours db.vault_keys) e)
        (unsynced w v (ap (λ db. db.deltas) e) (ap (λ db. db.snapshots) e))

  module _ (mine : Uuid) (apart : mine ≢ yours) where
    store-IsApart : (b : Vault.StoreReq) (w : World p) → IsApart w (Vault.store mine b w).1
    store-IsApart b w =
        let v = (Vault.store mine b w).1 in
        let e = Still.store-IsStill mine b w in
        beside w v (ap (λ db. db.devices) e) (store-other mine w yours b apart)
          (unsynced w v (ap (λ db. db.deltas) e) (ap (λ db. db.snapshots) e))

    push-IsApart : (b : Api.PushReq) (w : World p) → IsApart w (Api.push mine b w).1
    push-IsApart b w =
        let e = Still.push-IsStill mine b w in
        beside w (Api.push mine b w).1 (ap (λ db. db.devices) e)
          (ap (λ db. vault_key_of yours db.vault_keys) e)
          (handle-HasSame mine yours (Service.push b) w apart)

    put_snapshot-IsApart :
        (b : Api.SnapshotReq) (w : World p) → IsApart w (Api.put_snapshot mine b w).1
    put_snapshot-IsApart b w =
        let e = Still.put_snapshot-IsStill mine b w in
        beside w (Api.put_snapshot mine b w).1 (ap (λ db. db.devices) e)
          (ap (λ db. vault_key_of yours db.vault_keys) e)
          (handle-HasSame mine yours (Service.put_snapshot b) w apart)

  IsApart-Writers : Writers IsApart (λ account. account ≢ yours)
  IsApart-Writers = record {
    unmoved = unmoved;
    register_finish = register_finish-IsApart;
    store = store-IsApart;
    register = λ mine apart b w u. (
      register-HasUniqueKeys mine w u b,
      but-devices w (Devices.register mine b w).1 (Still.register-IsStill mine b w)
          ((others_kept mine yours w apart u).0 b),
    );
    revoke = λ mine apart id w u. (
      revoke-HasUniqueKeys mine w u id,
      but-devices w (Devices.revoke mine id w).1 (Still.revoke-IsStill mine id w)
          ((others_kept mine yours w apart u).2 id),
    );
    rename = λ mine apart id b w u. (
      rename-HasUniqueKeys mine w u id b,
      but-devices w (Devices.rename mine id b w).1 (Still.rename-IsStill mine id b w)
          ((others_kept mine yours w apart u).1 id b),
    );
    push = push-IsApart;
    put_snapshot = put_snapshot-IsApart;
  }

  respond-IsApart :
      (fw : Framework) (req : Request) (w : World p)
      → ((from_request_parts req.authorization w).0 ≢ ok yours)
      → IsApart w (respond fw req w).1
  respond-IsApart fw req w foreign =
      respond-frame IsApart IsApart-IsFrame (λ account. account ≢ yours) fw
        (from_request_parts-IsFramed IsApart (λ account. account ≢ yours) IsApart-Writers)
        (handled IsApart (λ account. account ≢ yours) IsApart-Writers fw)
        (λ u m unique. (unique, HasOwn-refl yours u.db)) req w
        (λ account named same. foreign (named ∙ ap ok same))

-- The application is asked things, but not by this account; and time passes, and the services change
-- what they are going to answer.
pub data Absence {p : Platform} (fw : Framework) (yours : Uuid) (w : World p)
    : World p → Type 0 where
  begun : Absence fw yours w w
  asked :
      {u : World p} (req : Request)
      → Absence fw yours w u
      → ((from_request_parts req.authorization u).0 ≢ ok yours)
      → Absence fw yours w (respond fw req u).1
  passed :
      {u : World p} (t : ℕ) (os : List Outcome)
      → Absence fw yours w u
      → Absence fw yours w (record u { now = u.now + t; schedule = os })

-- Accounts are apart. With device keys that are unique: after any requests by anyone to any path but
-- none with a session of this account, however the services answered them, and after any time, the
-- device keys are unique, and the account has the devices, the vault key, the deltas and the snapshot
-- that it had.
pub undisturbed :
    {p : Platform} (fw : Framework) (yours : Uuid) (w v : World p)
    → HasUniqueKeys w.db.devices
    → Absence fw yours w v
    → HasUniqueKeys v.db.devices × HasOwn yours v.db w.db
undisturbed fw yours w v u begun = (u, HasOwn-refl yours w.db)
undisturbed fw yours w v u (asked {u = x} req l foreign) =
    let before = undisturbed fw yours w x u l in
    let after = respond-IsApart yours fw req x foreign before.0 in
    (after.0, HasOwn-trans yours v.db x.db w.db after.1 before.1)
undisturbed fw yours w v u (passed {u = x} t os l) = undisturbed fw yours w x u l
