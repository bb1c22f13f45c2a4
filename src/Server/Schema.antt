-- ===== src/Server/Schema.antt =====
-- The constraints of the schema (migrations/0002 to 0007) as they hold of the rows, and the statements
-- of src/ that write them.
use realm_guard_server.Prelude.{
  String, ◌≡◌, refl, inl, inr, true, false, not, none, Option-cases, Bool-cases, List, [], ◌∷◌,
  ◌++◌, map, arith, ◌==◌, ==_iff, ltb, str_eq, str_eq_iff, count_where, All, All-append, All-imp,
  All-filter, ◌+◌, ℕ, ℤ, filter, ltb_ℤ,
}
use realm_guard_server.Platform.{Bytes, Uuid}
use realm_guard_server.Database.{
  Database, AccountRow, VaultKeyRow, DeviceRow, DeltaRow, SnapshotRow, has_account, max_bigint,
}
use realm_guard_server.Auth.Accounts.{account_of, insert_row}
use realm_guard_server.Relay.Vault.{vault_key_of, set_vault_key, upsert_row}
use realm_guard_server.Devices.Registry.{device_with, renewed, upsert_device}
use realm_guard_server.Devices.Ownership.{HasUniqueKeys}
use realm_guard_server.Sync.Deltas.{insert_delta}
use realm_guard_server.Sync.Snapshots.{
  snapshot_of, set_snapshot, upsert_snapshot, is_covered, delete_covered,
}

-- UNIQUE (username), as it holds of the rows
abbrev pub HasUniqueNames : List AccountRow → Type 0
HasUniqueNames [] = Unit
HasUniqueNames (a ∷ rows) = (account_of a.username rows ≡ none) × HasUniqueNames rows

-- UNIQUE and REFERENCES accounts (id) of every table
pub record IsIntact (db : Database) : Type 0 where
  pub usernames : HasUniqueNames db.accounts
  pub keys : HasUniqueKeys db.devices
  pub devices : All (λ d. has_account d.account_id db ≡ true) db.devices
  pub vault_keys : All (λ k. has_account k.account_id db ≡ true) db.vault_keys
  pub deltas : All (λ d. has_account d.account_id db ≡ true) db.deltas
  pub snapshots : All (λ s. has_account s.account_id db ≡ true) db.snapshots

pub All-map :
    {A : Type 0} (P : A → Type 0) (f : A → A) (xs : List A)
    → ((x : A) → P x → P (f x))
    → All P xs
    → All P (map f xs)
All-map P f [] keep h = tt
All-map P f (x ∷ xs) keep h = (keep x h.0, All-map P f xs keep h.1)

account_of-append_other :
    (name : String) (rows : List AccountRow) (a : AccountRow)
    → account_of name rows ≡ none
    → str_eq a.username name ≡ false
    → account_of name (rows ++ a ∷ []) ≡ none
account_of-append_other name [] a h e = rw e refl
account_of-append_other name (r ∷ rows) a h e = ground (arith, account_of-append_other name rows a)

append-HasUniqueNames :
    (rows : List AccountRow) (a : AccountRow)
    → account_of a.username rows ≡ none
    → HasUniqueNames rows
    → HasUniqueNames (rows ++ a ∷ [])
append-HasUniqueNames [] a h u = (refl, tt)
append-HasUniqueNames (r ∷ rows) a h u = (
  account_of-append_other r.username rows a u.0
      (ground (arith, str_eq_iff a.username r.username, str_eq_iff r.username a.username)),
  append-HasUniqueNames rows a (ground arith) u.1,
)

known-append :
    (id : Uuid) (rows : List AccountRow) (a : AccountRow)
    → ltb 0 (count_where (λ x. x.id == id) rows) ≡ true
    → ltb 0 (count_where (λ x. x.id == id) (rows ++ a ∷ [])) ≡ true
known-append id [] a h = ground arith
known-append id (r ∷ rows) a h = ground (arith, known-append id rows a)

module _ (db : Database) (v : IsIntact db) where
  enrolled :
      (a : AccountRow)
      → account_of a.username db.accounts ≡ none
      → IsIntact (record db { accounts = db.accounts ++ a ∷ [] })
  enrolled a fresh = record {
    usernames = append-HasUniqueNames db.accounts a fresh v.usernames;
    keys = v.keys;
    devices = All-imp _ _ (λ d. known-append d.account_id db.accounts a) db.devices v.devices;
    vault_keys =
        All-imp _ _ (λ d. known-append d.account_id db.accounts a) db.vault_keys v.vault_keys;
    deltas = All-imp _ _ (λ d. known-append d.account_id db.accounts a) db.deltas v.deltas;
    snapshots = All-imp _ _ (λ d. known-append d.account_id db.accounts a) db.snapshots v.snapshots;
  }

  pub insert_row-IsIntact : (a : AccountRow) → IsIntact (insert_row a db).1
  unfolding insert_row
  insert_row-IsIntact a = elim (Option-cases (account_of a.username db.accounts)) [
    | inl fresh ↦ elim (Bool-cases (has_account a.id db)) [
      | inl taken ↦ rw (insert_row, taken) v
      | inr free ↦ rw (insert_row, free, fresh) (enrolled a fresh)
    ]
    | inr (old, e) ↦ elim (Bool-cases (has_account a.id db)) [
      | inl taken ↦ rw (insert_row, taken) v
      | inr free ↦ rw (insert_row, free, e) v
    ]
  ]

  pub with_vault_keys :
      (ks : List VaultKeyRow)
      → All (λ k. has_account k.account_id db ≡ true) ks
      → IsIntact (record db { vault_keys = ks })
  with_vault_keys ks h = record {
    usernames = v.usernames;
    keys = v.keys;
    devices = v.devices;
    vault_keys = h;
    deltas = v.deltas;
    snapshots = v.snapshots;
  }

  pub upsert_row-IsIntact : (new : VaultKeyRow) → IsIntact (upsert_row new db).1
  unfolding upsert_row
  upsert_row-IsIntact new = elim (Option-cases (vault_key_of new.account_id db.vault_keys)) [
    | inl e ↦ elim (Bool-cases (has_account new.account_id db)) [
      | inl known ↦
          rw (e, upsert_row, known)
            (with_vault_keys (db.vault_keys ++ new ∷ [])
              (All-append _ db.vault_keys (new ∷ []) v.vault_keys (known, tt)))
      | inr unknown ↦ rw (e, upsert_row, unknown) v
    ]
    | inr (old, e) ↦
        rw (e, upsert_row)
          (with_vault_keys (set_vault_key new db.vault_keys) (
            All-map _ _ db.vault_keys (λ k h. ground (arith, ==_iff k.account_id new.account_id))
              v.vault_keys))
  ]

  pub with_devices :
      (ds : List DeviceRow)
      → HasUniqueKeys ds
      → All (λ d. has_account d.account_id db ≡ true) ds
      → IsIntact (record db { devices = ds })
  with_devices ds u h = record {
    usernames = v.usernames;
    keys = u;
    devices = h;
    vault_keys = v.vault_keys;
    deltas = v.deltas;
    snapshots = v.snapshots;
  }

  pub upsert_device-All :
      (new : DeviceRow)
      → All (λ d. has_account d.account_id db ≡ true) (upsert_device new db).1.devices
  unfolding upsert_device
  upsert_device-All new = elim (Option-cases (device_with new.device_pk db.devices)) [
    | inr (old, e) ↦ elim (Bool-cases (old.account_id == new.account_id)) [
      | inl same ↦
          rw (e, upsert_device, same)
            (All-map _ (renewed new.device_pk new.name) db.devices (λ d h. ground (arith, h))
              v.devices)
      | inr differ ↦ rw (e, upsert_device, differ) v.devices
    ]
    | inl fresh ↦ elim (Bool-cases (ltb 0 (count_where (λ d. d.id == new.id) db.devices))) [
      | inl taken ↦ rw (fresh, upsert_device, taken) v.devices
      | inr free ↦ elim (Bool-cases (has_account new.account_id db)) [
        | inl known ↦
            rw (fresh, upsert_device, free, known)
              (All-append _ db.devices (new ∷ []) v.devices (known, tt))
        | inr unknown ↦ rw (fresh, upsert_device, free, unknown) v.devices
      ]
    ]
  ]

  pub with_log :
      (n : ℕ) (ds : List DeltaRow)
      → All (λ d. has_account d.account_id db ≡ true) ds
      → IsIntact (record db { deltas = ds; next_seq = n })
  with_log n ds h = record {
    usernames = v.usernames;
    keys = v.keys;
    devices = v.devices;
    vault_keys = v.vault_keys;
    deltas = h;
    snapshots = v.snapshots;
  }

  pub insert_delta-IsIntact :
      (account : Uuid) (payload : Bytes) → IsIntact (insert_delta account payload db).1
  unfolding insert_delta
  insert_delta-IsIntact account payload = elim (Bool-cases (ltb max_bigint db.next_seq)) [
    | inl spent ↦ rw (insert_delta, spent) v
    | inr room ↦ elim (Bool-cases (has_account account db)) [
      | inl known ↦
          rw (insert_delta, room, known)
            (with_log (db.next_seq + 1)
              (db.deltas
                ++ record { seq = db.next_seq; account_id = account; payload = payload } ∷ [])
              (All-append _ db.deltas _ v.deltas (known, tt)))
      | inr unknown ↦
          rw (insert_delta, room, unknown) (with_log (db.next_seq + 1) db.deltas v.deltas)
    ]
  ]

  pub with_snapshots :
      (ss : List SnapshotRow)
      → All (λ s. has_account s.account_id db ≡ true) ss
      → IsIntact (record db { snapshots = ss })
  with_snapshots ss h = record {
    usernames = v.usernames;
    keys = v.keys;
    devices = v.devices;
    vault_keys = v.vault_keys;
    deltas = v.deltas;
    snapshots = h;
  }

  pub upsert_snapshot-IsIntact : (new : SnapshotRow) → IsIntact (upsert_snapshot new db).1
  unfolding upsert_snapshot
  upsert_snapshot-IsIntact new = elim (Option-cases (snapshot_of new.account_id db.snapshots)) [
    | inl e ↦ elim (Bool-cases (has_account new.account_id db)) [
      | inl known ↦
          rw (e, upsert_snapshot, known)
            (with_snapshots (db.snapshots ++ new ∷ [])
              (All-append _ db.snapshots (new ∷ []) v.snapshots (known, tt)))
      | inr unknown ↦ rw (e, upsert_snapshot, unknown) v
    ]
    | inr (old, e) ↦ elim (Bool-cases (ltb_ℤ new.covers_seq old.covers_seq)) [
      | inl older ↦ rw (e, upsert_snapshot, older) v
      | inr newer ↦
          rw (e, upsert_snapshot, newer)
            (with_snapshots (set_snapshot new db.snapshots) (
              All-map _ _ db.snapshots (λ s h. ground (arith, ==_iff s.account_id new.account_id))
                v.snapshots))
    ]
  ]

pub delete_covered-IsIntact :
    (account : Uuid) (covers_seq : ℤ) (db : Database)
    → IsIntact db
    → IsIntact (delete_covered account covers_seq db).1
unfolding delete_covered
delete_covered-IsIntact account covers_seq db v =
    with_log db v db.next_seq (filter (λ d. not (is_covered account covers_seq d)) db.deltas)
      (All-filter _ _ db.deltas v.deltas)
