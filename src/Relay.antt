-- ===== src/Relay.antt =====
-- What the server keeps for a client without looking into it: the wrapped vault key
-- (src/vault_keys.rs, src/vault_api.rs) and the pairing blob (src/pairing_api.rs).
pub mod Vault
pub mod Pairing
pub mod Custody
pub mod Tenancy
mod Examples
