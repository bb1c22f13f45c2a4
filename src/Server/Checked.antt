-- ===== src/Server/Checked.antt =====
-- What the handlers of src/lib.rs check before they write it: what stands in the tables has passed.
use Prim.Native.String.{count}
use realm_guard_server.Prelude.{
  ◌≡◌, ◌≤◌, ap, inl, inr, false, some, Option-cases, Bool-cases, [], ◌∷◌, arith, ◌==◌, ==_iff, ltb,
  length, count_where, All, All-append, String, ◌||◌,
}
use realm_guard_server.Prelude.Text.{trim, is_empty}
use realm_guard_server.Devices.Naming.{trim-trim, validate_name-stable}
use realm_guard_server.Sync.Sizes.{IsBounded, Step-IsBounded}
use realm_guard_server.Sync.Service
use realm_guard_server.Platform.{Platform, Bytes, Uuid}
use realm_guard_server.Database.{Database, AccountRow}
use realm_guard_server.Result.{ok}
use realm_guard_server.World.{World}
use realm_guard_server.Auth.Accounts.{insert_row}
use realm_guard_server.Auth.Api.{RegisterFinishReq, register_finish}
use realm_guard_server.Relay.Vault
use realm_guard_server.Relay.Vault.{upsert_row}
use realm_guard_server.Devices.Api as Devices
use realm_guard_server.Devices.Effects.{devices-register, devices-rename, devices-revoke}
use realm_guard_server.Sync.Api
use realm_guard_server.Server.Still
use realm_guard_server.Server.Still.{but_devices}
use realm_guard_server.Server.Writers.{Writers}
use realm_guard_server.Devices.Registry.{is_device, is_revocable}
use realm_guard_server.Auth.Accounts.{is_some, account_of}
use realm_guard_server.Relay.Vault.{vault_key_of, set_vault_key}
use realm_guard_server.Devices.Registry.{has_pk, device_with, renewed, upsert_device}
use realm_guard_server.Database.{DeviceRow, has_account}
use realm_guard_server.Server.Schema.{All-map}
use realm_guard_server.Server.Preserved.{Keeps, unmoved}
use realm_guard_server.Server.Written.{db-register_finish}

-- A name of a device: trimmed, not empty, and of at most 100 characters.
pub record IsName (name : String) : Type 0 where
  pub trimmed : trim name ≡ name
  pub full : is_empty name ≡ false
  pub short : count name ≤ 100

-- What OPAQUE made of an upload.
abbrev pub IsFile : Platform → Bytes → Type 0
IsFile p file = (upload : Bytes) × (p.server_register_finish upload ≡ some file)

pub record IsChecked (p : Platform) (db : Database) : Type 0 where
  pub files : All (λ a. IsFile p a.password_file) db.accounts
  pub keys : All (λ d. length d.device_pk ≡ 32) db.devices
  pub names : All (λ d. IsName d.name) db.devices
  pub sizes : IsBounded db

validate_name-IsName :
    (name accepted : String) → Devices.validate_name name ≡ ok accepted → IsName accepted
validate_name-IsName name accepted h =
    let (same, _, full, short, _) = validate_name-stable name accepted h in
    record { trimmed = rw same (trim-trim name); full = full; short = short }

parse_device_pk-length :
    (p : Platform) (text : String) (pk : Bytes)
    → Devices.parse_device_pk p text ≡ ok pk
    → length pk ≡ 32
unfolding Devices.parse_device_pk
parse_device_pk-length p text pk h = ground (arith, ==_iff (length pk) 32)

module _ {p : Platform} (db : Database) (v : IsChecked p db) where
  insert_row-files :
      (a : AccountRow)
      → IsFile p a.password_file
      → All (λ a. IsFile p a.password_file) (insert_row a db).1.accounts
  unfolding insert_row
  insert_row-files a file =
      elim (Bool-cases (has_account a.id db || is_some (account_of a.username db.accounts))) [
        | inl taken ↦ rw (insert_row, taken) v.files
        | inr free ↦ rw (insert_row, free) (All-append _ db.accounts (a ∷ []) v.files (file, tt))
      ]

  upsert_device-All :
      (P : DeviceRow → Type 0) (new : DeviceRow)
      → P new
      → ((d : DeviceRow) → P d → P (renewed new.device_pk new.name d))
      → All P db.devices
      → All P (upsert_device new db).1.devices
  unfolding upsert_device
  upsert_device-All P new good keep all =
      elim (Option-cases (device_with new.device_pk db.devices)) [
        | inr (old, e) ↦ elim (Bool-cases (old.account_id == new.account_id)) [
          | inl same ↦
              rw (e, upsert_device, same)
                (All-map P (renewed new.device_pk new.name) db.devices keep all)
          | inr differ ↦ rw (e, upsert_device, differ) all
        ]
        | inl fresh ↦ elim (Bool-cases (ltb 0 (count_where (λ d. d.id == new.id) db.devices))) [
          | inl taken ↦ rw (fresh, upsert_device, taken) all
          | inr free ↦ elim (Bool-cases (has_account new.account_id db)) [
            | inl known ↦
                rw (fresh, upsert_device, free, known)
                  (All-append _ db.devices (new ∷ []) all (good, tt))
            | inr unknown ↦ rw (fresh, upsert_device, free, unknown) all
          ]
        ]
      ]

  renewed-IsName :
      (new d : DeviceRow)
      → IsName new.name
      → IsName d.name
      → IsName (renewed new.device_pk new.name d).name
  renewed-IsName new d good h = elim (Bool-cases (has_pk new.device_pk d)) [
    | inl e ↦ rw e good
    | inr e ↦ rw e h
  ]

same_sizes :
    (a b : Database) → a.deltas ≡ b.deltas → a.snapshots ≡ b.snapshots → IsBounded b → IsBounded a
same_sizes a b deltas snapshots h = record {
  deltas = rw deltas h.deltas;
  snapshots = rw snapshots h.snapshots;
}

module _ {p : Platform} where
  register_finish-IsChecked :
      (b : RegisterFinishReq) (w : World p) → Keeps (IsChecked p) w (register_finish b w).1
  register_finish-IsChecked b w h =
      let v = (register_finish b w).1 in
      let e = Still.register_finish-IsStill b w in
      record {
        files = elim (db-register_finish b w) [
          | inl same ↦ rw same h.files
          | inr (a, upload, made, same) ↦ rw same (insert_row-files w.db h a (upload, made))
        ];
        keys = rw (ap (λ db. db.devices) e) h.keys;
        names = rw (ap (λ db. db.devices) e) h.names;
        sizes = same_sizes v.db w.db (ap (λ db. db.deltas) e) (ap (λ db. db.snapshots) e) h.sizes;
      }

  module _ (mine : Uuid) where
    store-IsChecked :
        (b : Vault.StoreReq) (w : World p) → Keeps (IsChecked p) w (Vault.store mine b w).1
    store-IsChecked b w h =
        let v = (Vault.store mine b w).1 in
        let e = Still.store-IsStill mine b w in
        record {
          files = rw (ap (λ db. db.accounts) e) h.files;
          keys = rw (ap (λ db. db.devices) e) h.keys;
          names = rw (ap (λ db. db.devices) e) h.names;
          sizes = same_sizes v.db w.db (ap (λ db. db.deltas) e) (ap (λ db. db.snapshots) e) h.sizes;
        }

    -- Where only the devices have changed.
    only_devices :
        (w v : World p)
        → but_devices v.db ≡ but_devices w.db
        → All (λ d. length d.device_pk ≡ 32) v.db.devices
        → All (λ d. IsName d.name) v.db.devices
        → Keeps (IsChecked p) w v
    only_devices w v e keys names h = record {
      files = rw (ap (λ db. db.accounts) e) h.files;
      keys = keys;
      names = names;
      sizes = same_sizes v.db w.db (ap (λ db. db.deltas) e) (ap (λ db. db.snapshots) e) h.sizes;
    }

    register-IsChecked :
        (b : Devices.RegisterReq) (w : World p)
        → Keeps (IsChecked p) w (Devices.register mine b w).1
    register-IsChecked b w h = elim (devices-register mine w b) [
      | inl e ↦
          only_devices w (Devices.register mine b w).1 (Still.register-IsStill mine b w)
            (rw e h.keys) (rw e h.names) h
      | inr (new, sized, named, e) ↦
          let key = parse_device_pk-length p b.device_pk new.device_pk sized in
          let name = validate_name-IsName b.name new.name named in
          only_devices w (Devices.register mine b w).1 (Still.register-IsStill mine b w)
            (rw e (
              upsert_device-All w.db h (λ d. length d.device_pk ≡ 32) new key
                (λ d k. ground (arith, k)) h.keys))
            (rw e (
              upsert_device-All w.db h (λ d. IsName d.name) new name
                (λ d k. renewed-IsName w.db h new d name k) h.names))
            h
    ]

    rename-IsChecked :
        (id : String) (b : Devices.RenameReq) (w : World p)
        → Keeps (IsChecked p) w (Devices.rename mine id b w).1
    rename-IsChecked id b w h = elim (devices-rename mine w id b) [
      | inl e ↦
          only_devices w (Devices.rename mine id b w).1 (Still.rename-IsStill mine id b w)
            (rw e h.keys) (rw e h.names) h
      | inr (device_id, text, named, e) ↦
          let name = validate_name-IsName b.name text named in
          only_devices w (Devices.rename mine id b w).1 (Still.rename-IsStill mine id b w)
            (rw e (All-map _ _ w.db.devices (λ d k. ground (arith, k)) h.keys))
            (rw e (
              All-map (λ d. IsName d.name) _ w.db.devices
                (λ d k. elim (Bool-cases (is_device mine device_id d)) [
                  | inl own ↦ rw own name
                  | inr other ↦ rw other k
                ])
                h.names))
            h
    ]

    revoke-IsChecked :
        (id : String) (w : World p) → Keeps (IsChecked p) w (Devices.revoke mine id w).1
    revoke-IsChecked id w h = elim (devices-revoke mine w id) [
      | inl e ↦
          only_devices w (Devices.revoke mine id w).1 (Still.revoke-IsStill mine id w) (rw e h.keys)
            (rw e h.names) h
      | inr (device_id, e) ↦
          only_devices w (Devices.revoke mine id w).1 (Still.revoke-IsStill mine id w)
            (rw e (All-map _ _ w.db.devices (λ d k. ground (arith, k)) h.keys))
            (rw e (
              All-map (λ d. IsName d.name) _ w.db.devices
                (λ d k. elim (Bool-cases (is_revocable mine device_id d)) [
                  | inl own ↦ rw own k
                  | inr other ↦ rw other k
                ])
                h.names))
            h
    ]

    push-IsChecked : (b : Api.PushReq) (w : World p) → Keeps (IsChecked p) w (Api.push mine b w).1
    push-IsChecked b w h =
        let e = Still.push-IsStill mine b w in
        record {
          files = rw (ap (λ db. db.accounts) e) h.files;
          keys = rw (ap (λ db. db.devices) e) h.keys;
          names = rw (ap (λ db. db.devices) e) h.names;
          sizes = Step-IsBounded (Service.request mine (Service.push b) w) h.sizes;
        }

    put_snapshot-IsChecked :
        (b : Api.SnapshotReq) (w : World p) → Keeps (IsChecked p) w (Api.put_snapshot mine b w).1
    put_snapshot-IsChecked b w h =
        let e = Still.put_snapshot-IsStill mine b w in
        record {
          files = rw (ap (λ db. db.accounts) e) h.files;
          keys = rw (ap (λ db. db.devices) e) h.keys;
          names = rw (ap (λ db. db.devices) e) h.names;
          sizes = Step-IsBounded (Service.request mine (Service.put_snapshot b) w) h.sizes;
        }

  pub IsChecked-Writers : Writers {p = p} (Keeps (IsChecked p)) (λ _. Unit {0})
  IsChecked-Writers = record {
    unmoved = unmoved (IsChecked p);
    register_finish = register_finish-IsChecked;
    store = λ mine _. store-IsChecked mine;
    register = λ mine _. register-IsChecked mine;
    revoke = λ mine _. revoke-IsChecked mine;
    rename = λ mine _. rename-IsChecked mine;
    push = λ mine _. push-IsChecked mine;
    put_snapshot = λ mine _. put_snapshot-IsChecked mine;
  }
