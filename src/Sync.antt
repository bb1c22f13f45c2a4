-- ===== src/Sync.antt =====
-- The synchronisation service: src/deltas.rs, src/snapshots.rs, src/sync_api.rs, src/sync_ws.rs.
pub mod Deltas
pub mod Snapshots
pub mod Nudge
pub mod Api
pub mod Socket
pub mod Relaying
pub mod Invariant
pub mod Effects
pub mod Rows
pub mod Service
pub mod Durability
pub mod Paging
pub mod Sizes
pub mod Delivery
pub mod Publication
pub mod Isolation
pub mod Ledger
pub mod Threads
pub mod Commits
pub mod Sample
mod Examples
