-- ===== src/Database.antt =====
-- The Postgres schema (migrations/0002 to 0007): one record type for the rows of each table, and
-- the state of the database. Columns of type bigint that the server fills are numbers; the ones
-- that a client chooses are integers. A statement is a function on the database; its errors are the
-- constraint violations that the schema declares.
use realm_guard_server.Prelude.{
  ℕ, ◌^◌, ◌-◌, String, Bool, List, [], Option, ◌==◌, ℤ, count_where, ltb,
}
use realm_guard_server.Platform.{Bytes, Uuid}

pub record AccountRow : Type 0 where
  pub id : Uuid
  pub username : String
  pub password_file : Bytes

pub record VaultKeyRow : Type 0 where
  pub account_id : Uuid
  pub wrapped_key : Bytes
  pub salt : Bytes

pub record DeviceRow : Type 0 where
  pub id : Uuid
  pub account_id : Uuid
  pub device_pk : Bytes
  pub name : String
  pub created_at : ℕ
  pub revoked_at : Option ℕ

pub record DeltaRow : Type 0 where
  pub seq : ℕ
  pub account_id : Uuid
  pub payload : Bytes

pub record SnapshotRow : Type 0 where
  pub account_id : Uuid
  pub payload : Bytes
  pub covers_seq : ℤ

pub record Database : Type 0 where
  pub accounts : List AccountRow
  pub vault_keys : List VaultKeyRow
  pub devices : List DeviceRow
  pub deltas : List DeltaRow
  -- the value that the sequence behind `deltas.seq` (bigserial) gives next
  pub next_seq : ℕ
  pub snapshots : List SnapshotRow

-- What the migrations create.
abbrev pub migrated : Database
migrated = record {
  accounts = [];
  vault_keys = [];
  devices = [];
  deltas = [];
  next_seq = 1;
  snapshots = [];
}

-- The largest bigint.
abbrev pub max_bigint : ℕ
max_bigint = 2 ^ 63 - 1

-- REFERENCES accounts(id)
abbrev pub has_account : Uuid → Database → Bool
has_account id db = ltb 0 (count_where (λ a. a.id == id) db.accounts)
