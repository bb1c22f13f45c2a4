-- ===== src/Server/Distinct.antt =====
-- The primary keys of the schema (migrations/0002 to 0007) as they hold of the rows: the handlers of
-- src/lib.rs keep them.
use realm_guard_server.Prelude.{
  ℕ, ◌≡◌, ap, inl, inr, false, none, Option-cases, Bool-cases, List, [], ◌∷◌, ◌++◌, map, arith,
  ◌==◌, ==_iff, ltb, find?, count_where, All, All-append, All-imp, String, ◌||◌, ltb_ℤ, ℤ,
}
use realm_guard_server.Platform.{Platform, Uuid}
use realm_guard_server.Database.{Database, AccountRow, VaultKeyRow}
use realm_guard_server.World.{World}
use realm_guard_server.Auth.Accounts.{insert_row}
use realm_guard_server.Auth.Api.{RegisterFinishReq, register_finish}
use realm_guard_server.Relay.Vault
use realm_guard_server.Relay.Vault.{upsert_row}
use realm_guard_server.Devices.Api as Devices
use realm_guard_server.Devices.Effects.{devices-register, devices-rename, devices-revoke}
use realm_guard_server.Sync.Api
use realm_guard_server.Sync.Effects.{db-put_snapshot, snapshot_row}
use realm_guard_server.Sync.Snapshots.{upsert_snapshot}
use realm_guard_server.Server.Still
use realm_guard_server.Server.Still.{but_devices}
use realm_guard_server.Server.Writers.{Writers}
use realm_guard_server.Auth.Accounts.{is_some, account_of}
use realm_guard_server.Relay.Vault.{vault_key_of, set_vault_key}
use realm_guard_server.Devices.Registry.{device_with, renewed, upsert_device}
use realm_guard_server.Database.{DeviceRow, SnapshotRow, has_account}
use realm_guard_server.Sync.Snapshots.{snapshot_of, delete_covered}
use realm_guard_server.Server.Schema.{All-map}
use realm_guard_server.Server.Preserved.{Keeps, unmoved}
use realm_guard_server.Server.Written.{db-register_finish, db-store}

module _ {A : Type 0} (key : A → ℕ) where
  -- PRIMARY KEY, as it holds of the rows
  abbrev pub AreDistinct : List A → Type 0
  AreDistinct [] = Unit
  AreDistinct (x ∷ xs) = All (λ y. (key y == key x) ≡ false) xs × AreDistinct xs

  AreDistinct-append :
      (xs : List A) (new : A)
      → All (λ x. (key x == key new) ≡ false) xs
      → AreDistinct xs
      → AreDistinct (xs ++ new ∷ [])
  AreDistinct-append [] new h d = (tt, tt)
  AreDistinct-append (x ∷ xs) new h d = (
    All-append _ xs (new ∷ []) d.0
        (ground (arith, ==_iff (key x) (key new), ==_iff (key new) (key x)), tt),
    AreDistinct-append xs new h.1 d.1,
  )

  -- A map that keeps the keys.
  AreDistinct-map :
      (f : A → A) (xs : List A)
      → ((x : A) → key (f x) ≡ key x)
      → AreDistinct xs
      → AreDistinct (map f xs)
  AreDistinct-map f [] keep d = tt
  AreDistinct-map f (x ∷ xs) keep d = (
    All-map (λ y. (key y == key (f x)) ≡ false) f xs (λ y h. rw (keep y) h)
        (All-imp _ _ (λ y h. rw (keep x) h) xs d.0),
    AreDistinct-map f xs keep d.1,
  )

  All-find_none :
      (k : ℕ) (xs : List A) → find? (λ x. key x == k) xs ≡ none → All (λ x. (key x == k) ≡ false) xs
  All-find_none k [] h = tt
  All-find_none k (x ∷ xs) h = elim (Bool-cases (key x == k)) [
    | inl e ↦ absurd (ground arith)
    | inr e ↦ (e, All-find_none k xs (ground arith))
  ]

  All-count_none :
      (k : ℕ) (xs : List A)
      → ltb 0 (count_where (λ x. key x == k) xs) ≡ false
      → All (λ x. (key x == k) ≡ false) xs
  All-count_none k [] h = tt
  All-count_none k (x ∷ xs) h = elim (Bool-cases (key x == k)) [
    | inl e ↦ absurd (ground arith)
    | inr e ↦ (e, All-count_none k xs (ground arith))
  ]

-- The primary keys but `deltas.seq`.
pub record IsKeyed (db : Database) : Type 0 where
  pub accounts : AreDistinct (λ a. a.id) db.accounts
  pub vault_keys : AreDistinct (λ k. k.account_id) db.vault_keys
  pub devices : AreDistinct (λ d. d.id) db.devices
  pub snapshots : AreDistinct (λ s. s.account_id) db.snapshots

module _ (db : Database) (v : IsKeyed db) where
  insert_row-AreDistinct : (a : AccountRow) → AreDistinct (λ a. a.id) (insert_row a db).1.accounts
  unfolding insert_row
  insert_row-AreDistinct a =
      elim (Bool-cases (has_account a.id db || is_some (account_of a.username db.accounts))) [
        | inl taken ↦ rw (insert_row, taken) v.accounts
        | inr free ↦
            rw (insert_row, free)
              (AreDistinct-append _ db.accounts a (All-count_none _ a.id db.accounts (ground arith))
                v.accounts)
      ]

  upsert_row-AreDistinct :
      (new : VaultKeyRow) → AreDistinct (λ k. k.account_id) (upsert_row new db).1.vault_keys
  unfolding upsert_row
  upsert_row-AreDistinct new = elim (Option-cases (vault_key_of new.account_id db.vault_keys)) [
    | inl e ↦ elim (Bool-cases (has_account new.account_id db)) [
      | inl known ↦
          rw (e, upsert_row, known)
            (AreDistinct-append _ db.vault_keys new (All-find_none _ new.account_id db.vault_keys e)
              v.vault_keys)
      | inr unknown ↦ rw (e, upsert_row, unknown) v.vault_keys
    ]
    | inr (old, e) ↦
        rw (e, upsert_row)
          (AreDistinct-map _ _ db.vault_keys
            (λ k. ground (arith, ==_iff k.account_id new.account_id)) v.vault_keys)
  ]

  upsert_device-AreDistinct :
      (new : DeviceRow) → AreDistinct (λ d. d.id) (upsert_device new db).1.devices
  unfolding upsert_device
  upsert_device-AreDistinct new = elim (Option-cases (device_with new.device_pk db.devices)) [
    | inr (old, e) ↦ elim (Bool-cases (old.account_id == new.account_id)) [
      | inl same ↦
          rw (e, upsert_device, same)
            (AreDistinct-map _ (renewed new.device_pk new.name) db.devices (λ d. ground arith)
              v.devices)
      | inr differ ↦ rw (e, upsert_device, differ) v.devices
    ]
    | inl fresh ↦ elim (Bool-cases (ltb 0 (count_where (λ d. d.id == new.id) db.devices))) [
      | inl taken ↦ rw (fresh, upsert_device, taken) v.devices
      | inr free ↦ elim (Bool-cases (has_account new.account_id db)) [
        | inl known ↦
            rw (fresh, upsert_device, free, known)
              (AreDistinct-append _ db.devices new (All-count_none _ new.id db.devices free)
                v.devices)
        | inr unknown ↦ rw (fresh, upsert_device, free, unknown) v.devices
      ]
    ]
  ]

  upsert_snapshot-AreDistinct :
      (new : SnapshotRow) → AreDistinct (λ s. s.account_id) (upsert_snapshot new db).1.snapshots
  unfolding upsert_snapshot
  upsert_snapshot-AreDistinct new = elim (Option-cases (snapshot_of new.account_id db.snapshots)) [
    | inl e ↦ elim (Bool-cases (has_account new.account_id db)) [
      | inl known ↦
          rw (e, upsert_snapshot, known)
            (AreDistinct-append _ db.snapshots new (All-find_none _ new.account_id db.snapshots e)
              v.snapshots)
      | inr unknown ↦ rw (e, upsert_snapshot, unknown) v.snapshots
    ]
    | inr (old, e) ↦ elim (Bool-cases (ltb_ℤ new.covers_seq old.covers_seq)) [
      | inl older ↦ rw (e, upsert_snapshot, older) v.snapshots
      | inr newer ↦
          rw (e, upsert_snapshot, newer)
            (AreDistinct-map _ _ db.snapshots
              (λ s. ground (arith, ==_iff s.account_id new.account_id)) v.snapshots)
    ]
  ]

  snapshots-published :
      (account : Uuid) (covers_seq : ℤ) (new : SnapshotRow)
      → AreDistinct
          (λ s. s.account_id)
          (delete_covered account covers_seq (upsert_snapshot new db).1).1.snapshots
  unfolding delete_covered
  snapshots-published account covers_seq new = upsert_snapshot-AreDistinct new

module _ {p : Platform} where
  register_finish-IsKeyed :
      (b : RegisterFinishReq) (w : World p) → Keeps IsKeyed w (register_finish b w).1
  register_finish-IsKeyed b w h =
      let e = Still.register_finish-IsStill b w in
      record {
        accounts = elim (db-register_finish b w) [
          | inl same ↦ rw same h.accounts
          | inr (a, _, _, same) ↦ rw same (insert_row-AreDistinct w.db h a)
        ];
        vault_keys = rw (ap (λ db. db.vault_keys) e) h.vault_keys;
        devices = rw (ap (λ db. db.devices) e) h.devices;
        snapshots = rw (ap (λ db. db.snapshots) e) h.snapshots;
      }

  module _ (mine : Uuid) where
    store-IsKeyed : (b : Vault.StoreReq) (w : World p) → Keeps IsKeyed w (Vault.store mine b w).1
    store-IsKeyed b w h =
        let e = Still.store-IsStill mine b w in
        record {
          accounts = rw (ap (λ db. db.accounts) e) h.accounts;
          vault_keys = elim (db-store mine b w) [
            | inl same ↦ rw same h.vault_keys
            | inr (new, same) ↦ rw same (upsert_row-AreDistinct w.db h new)
          ];
          devices = rw (ap (λ db. db.devices) e) h.devices;
          snapshots = rw (ap (λ db. db.snapshots) e) h.snapshots;
        }

    -- Where only the devices have changed.
    only_devices :
        (w v : World p)
        → but_devices v.db ≡ but_devices w.db
        → AreDistinct (λ d. d.id) v.db.devices
        → Keeps IsKeyed w v
    only_devices w v e devices h = record {
      accounts = rw (ap (λ db. db.accounts) e) h.accounts;
      vault_keys = rw (ap (λ db. db.vault_keys) e) h.vault_keys;
      devices = devices;
      snapshots = rw (ap (λ db. db.snapshots) e) h.snapshots;
    }

    register-IsKeyed :
        (b : Devices.RegisterReq) (w : World p) → Keeps IsKeyed w (Devices.register mine b w).1
    register-IsKeyed b w h =
        only_devices w (Devices.register mine b w).1 (Still.register-IsStill mine b w)
          (elim (devices-register mine w b) [
            | inl e ↦ rw e h.devices
            | inr (new, _, _, e) ↦ rw e (upsert_device-AreDistinct w.db h new)
          ])
          h

    rename-IsKeyed :
        (id : String) (b : Devices.RenameReq) (w : World p)
        → Keeps IsKeyed w (Devices.rename mine id b w).1
    rename-IsKeyed id b w h =
        only_devices w (Devices.rename mine id b w).1 (Still.rename-IsStill mine id b w)
          (elim (devices-rename mine w id b) [
            | inl e ↦ rw e h.devices
            | inr (device_id, name, _, e) ↦
                rw e (AreDistinct-map _ _ w.db.devices (λ d. ground arith) h.devices)
          ])
          h

    revoke-IsKeyed : (id : String) (w : World p) → Keeps IsKeyed w (Devices.revoke mine id w).1
    revoke-IsKeyed id w h =
        only_devices w (Devices.revoke mine id w).1 (Still.revoke-IsStill mine id w)
          (elim (devices-revoke mine w id) [
            | inl e ↦ rw e h.devices
            | inr (device_id, e) ↦
                rw e (AreDistinct-map _ _ w.db.devices (λ d. ground arith) h.devices)
          ])
          h

    push-IsKeyed : (b : Api.PushReq) (w : World p) → Keeps IsKeyed w (Api.push mine b w).1
    push-IsKeyed b w h =
        let e = Still.push-IsStill mine b w in
        record {
          accounts = rw (ap (λ db. db.accounts) e) h.accounts;
          vault_keys = rw (ap (λ db. db.vault_keys) e) h.vault_keys;
          devices = rw (ap (λ db. db.devices) e) h.devices;
          snapshots = rw (ap (λ db. db.snapshots) e) h.snapshots;
        }

    put_snapshot-IsKeyed :
        (b : Api.SnapshotReq) (w : World p) → Keeps IsKeyed w (Api.put_snapshot mine b w).1
    put_snapshot-IsKeyed b w h =
        let e = Still.put_snapshot-IsStill mine b w in
        record {
          accounts = rw (ap (λ db. db.accounts) e) h.accounts;
          vault_keys = rw (ap (λ db. db.vault_keys) e) h.vault_keys;
          devices = rw (ap (λ db. db.devices) e) h.devices;
          snapshots = elim (db-put_snapshot mine w b) [
            | inl same ↦ rw same h.snapshots
            | inr (payload, _, done, same) ↦ rw same (
                snapshots-published w.db h mine b.covers_seq
                  (snapshot_row mine w payload b.covers_seq))
          ];
        }

  pub IsKeyed-Writers : Writers {p = p} (Keeps IsKeyed) (λ _. Unit {0})
  IsKeyed-Writers = record {
    unmoved = unmoved IsKeyed;
    register_finish = register_finish-IsKeyed;
    store = λ mine _. store-IsKeyed mine;
    register = λ mine _. register-IsKeyed mine;
    revoke = λ mine _. revoke-IsKeyed mine;
    rename = λ mine _. rename-IsKeyed mine;
    push = λ mine _. push-IsKeyed mine;
    put_snapshot = λ mine _. put_snapshot-IsKeyed mine;
  }
