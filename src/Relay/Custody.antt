-- ===== src/Relay/Custody.antt =====
-- Theorems on what is handed in and fetched: src/vault_api.rs and src/pairing_api.rs.
use realm_guard_server.Prelude.{
  ℕ, ◌≡◌, String, true, none, some, Option-cases, Bool-cases, inl, inr, List, [], ◌∷◌, ◌++◌, ◌==◌,
  ==_refl, arith, ltb, str_eq_refl, if◌then◌else◌,
}
use realm_guard_server.Platform.{Platform, Bytes, Uuid}
use realm_guard_server.Database.{Database, VaultKeyRow}
use realm_guard_server.Result.{ok, err, no_content, not_found}
use realm_guard_server.World.{World}
use realm_guard_server.Auth.Lockout.{tick}
use realm_guard_server.Relay.Vault
use realm_guard_server.Relay.Vault.{StoreReq, vault_key_of, set_vault_key, upsert_row}
use realm_guard_server.Relay.Pairing
use realm_guard_server.Relay.Pairing.{DepositReq, pairing_ttl_secs, redis_key}

set_vault_key-find :
    (new old : VaultKeyRow) (ks : List VaultKeyRow)
    → vault_key_of new.account_id ks ≡ some old
    → vault_key_of new.account_id (set_vault_key new ks) ≡ some new
set_vault_key-find new old [] h = cc
set_vault_key-find new old (k ∷ ks) h = elim (Bool-cases (k.account_id == new.account_id)) [
  | inl e ↦ rw e (ground (arith, ==_refl new.account_id))
  | inr e ↦ rw e (ground (arith, set_vault_key-find new old ks))
]

append-find :
    (new : VaultKeyRow) (ks : List VaultKeyRow)
    → vault_key_of new.account_id ks ≡ none
    → vault_key_of new.account_id (ks ++ new ∷ []) ≡ some new
append-find new [] h = ground (arith, ==_refl new.account_id)
append-find new (k ∷ ks) h = ground (arith, append-find new ks)

-- The row of an account after its upsert was carried out.
pub upsert_row-find :
    (new : VaultKeyRow) (db : Database)
    → (upsert_row new db).0 ≡ ok tt
    → vault_key_of new.account_id (upsert_row new db).1.vault_keys ≡ some new
unfolding upsert_row
upsert_row-find new db h = elim (Option-cases (vault_key_of new.account_id db.vault_keys)) [
  | inl e ↦ ground (arith, append-find new db.vault_keys e)
  | inr (old, e) ↦ ground (arith, set_vault_key-find new old db.vault_keys e)
]

-- A vault key that `store` accepted is the one that `fetch`, with the services up, answers with
-- from then on, base64 encoded anew, whatever was there before and whatever else of the server
-- changes, until the vault keys change again.
pub stored_fetched :
    {p : Platform} (account : Uuid) (body : StoreReq) (w u : World p) (wrapped salt : Bytes)
    → p.decode64 body.wrapped_key ≡ some wrapped
    → p.decode64 body.salt ≡ some salt
    → (Vault.store account body w).0 ≡ ok no_content
    → u.db.vault_keys ≡ (Vault.store account body w).1.db.vault_keys
    → u.schedule ≡ []
    → (Vault.fetch account u).0
      ≡ ok (record { wrapped_key = p.encode64 wrapped; salt = p.encode64 salt })
unfolding Vault.store Vault.fetch Vault.decode
stored_fetched account body w u wrapped salt a b stored same up = ground (
  arith,
  upsert_row-find (record { account_id = account; wrapped_key = wrapped; salt = salt }) w.db,
)

-- What is deposited under a valid id can be fetched for five minutes and no second longer, with
-- the services up, Redis connected and nothing else writing to Redis.
pub deposit_lifetime :
    {p : Platform} (id key : String) (body : DepositReq) (blob : Bytes) (w : World p) (t : ℕ)
    → w.schedule ≡ []
    → w.connected ≡ true
    → redis_key id ≡ ok key
    → p.decode64 body.response ≡ some blob
    → (Pairing.fetch id (tick t (Pairing.deposit id body w).1)).0 ≡ (
        if ltb t pairing_ttl_secs
        then ok (record { response = p.encode64 blob })
        else err not_found)
unfolding Pairing.fetch Pairing.deposit
deposit_lifetime {p} id key body blob w t up connected valid good = ground (
  arith,
  str_eq_refl key,
  p.redis.entry-set_ex w.cache w.now key (p.redis.of_bytes blob) pairing_ttl_secs key,
  p.redis.to_bytes-of_bytes blob,
)

-- With the services up and Redis connected, a deposit is fetched once: after a fetch for a valid
-- id, every later fetch of that id is answered with 404 until Redis changes.
pub fetched_once :
    {p : Platform} (id key : String) (w u : World p)
    → redis_key id ≡ ok key
    → w.schedule ≡ []
    → w.connected ≡ true
    → u.cache ≡ (Pairing.fetch id w).1.cache
    → u.schedule ≡ []
    → u.connected ≡ true
    → (Pairing.fetch id u).0 ≡ err not_found
unfolding Pairing.fetch
fetched_once {p} id key w u valid up connected same up' connected' =
    ground (arith, p.redis.entry-del w.cache key key, str_eq_refl key)
