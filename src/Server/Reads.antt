-- ===== src/Server/Reads.antt =====
-- Theorems on what the handlers of src/lib.rs that read answer to an account while others are at work.
use realm_guard_server.Prelude.{
  ◌≡◌, refl, ap, sym, ◌∙◌, inl, inr, Bool-cases, List, [], ◌∷◌, ℤ, filter, arith,
}
use realm_guard_server.Platform.{Platform, Uuid}
use realm_guard_server.Database.{DeltaRow}
use realm_guard_server.World.{World}
use realm_guard_server.Relay.Vault
use realm_guard_server.Relay.Vault.{vault_key_of}
use realm_guard_server.Devices.Api as Devices
use realm_guard_server.Devices.Ownership.{HasUniqueKeys}
use realm_guard_server.Sync.Deltas.{is_after, is_of, select_since, latest}
use realm_guard_server.Sync.Snapshots.{covered}
use realm_guard_server.Sync.Api
use realm_guard_server.Sync.Api.{PullQuery, normalize_since, normalize_limit}
use realm_guard_server.Server.App.{Framework}
use realm_guard_server.Server.Apart.{Absence, HasOwn, undisturbed}

filter-is_after :
    (account : Uuid) (cursor : ℤ) (ds : List DeltaRow)
    → filter (is_after account cursor) (filter (is_of account) ds)
      ≡ filter (is_after account cursor) ds
filter-is_after account cursor [] = refl
filter-is_after account cursor (d ∷ ds) = elim (Bool-cases (is_of account d)) [
  | inl e ↦ rw e (ground (arith, filter-is_after account cursor ds))
  | inr e ↦ rw e (ground (arith, filter-is_after account cursor ds))
]

-- A page is made of the account's own rows.
select_since-own :
    (account : Uuid) (cursor limit : ℤ) (ds : List DeltaRow)
    → select_since account cursor limit (filter (is_of account) ds)
      ≡ select_since account cursor limit ds
unfolding select_since
select_since-own account cursor limit ds = rw (filter-is_after account cursor ds) refl

module _ {p : Platform} (account : Uuid) (w v : World p) (before : w.schedule ≡ [])
    (up : v.schedule ≡ []) (own : HasOwn account v.db w.db) where
  same_page :
      (cursor limit : ℤ)
      → select_since account cursor limit v.db.deltas
        ≡ select_since account cursor limit w.db.deltas
  same_page cursor limit =
      sym (select_since-own account cursor limit v.db.deltas)
      ∙ ap (select_since account cursor limit) own.sync.deltas
      ∙ select_since-own account cursor limit w.db.deltas

  same_latest : latest account v.db.deltas ≡ latest account w.db.deltas
  unfolding latest
  same_latest = rw (own.sync.deltas) refl

  same_covered : covered account v.db.snapshots ≡ covered account w.db.snapshots
  unfolding covered
  same_covered = ground (arith, own.sync.snapshot)

  same_pull : (query : PullQuery) → (Api.pull account query v).0 ≡ (Api.pull account query w).0
  unfolding Api.pull
  same_pull query =
      let page = same_page (normalize_since query.since) (normalize_limit query.limit) in
      let top = same_latest in let low = same_covered in ground arith

  same_snapshot : (Api.get_snapshot account v).0 ≡ (Api.get_snapshot account w).0
  unfolding Api.get_snapshot
  same_snapshot = ground (arith, own.sync.snapshot)

  same_list : (Devices.list account v).0 ≡ (Devices.list account w).0
  unfolding Devices.list
  same_list = ground (arith, own.devices)

  same_key : (Vault.fetch account v).0 ≡ (Vault.fetch account w).0
  unfolding Vault.fetch
  same_key = ground (arith, own.vault_key)

-- What an account reads depends on nobody else. With device keys that are unique: after any requests
-- by anyone to any path but none with a session of this account, however the services answered them,
-- and after any time, the services being up again, each of the account's reads, which are `pull`,
-- `get_snapshot`, `list` and the `fetch` of the vault key, answers what it would have answered before.
pub same_answers :
    {p : Platform} (fw : Framework) (account : Uuid) (w v : World p) (query : PullQuery)
    → HasUniqueKeys w.db.devices
    → Absence fw account w v
    → w.schedule ≡ []
    → v.schedule ≡ []
    → ((Api.pull account query v).0 ≡ (Api.pull account query w).0)
      × ((Api.get_snapshot account v).0 ≡ (Api.get_snapshot account w).0)
      × ((Devices.list account v).0 ≡ (Devices.list account w).0)
      × ((Vault.fetch account v).0 ≡ (Vault.fetch account w).0)
same_answers fw account w v query unique absent before up =
    let own = (undisturbed fw account w v unique absent).1 in
    (
      same_pull account w v before up own query,
      same_snapshot account w v before up own,
      same_list account w v before up own,
      same_key account w v before up own,
    )
