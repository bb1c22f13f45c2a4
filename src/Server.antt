-- ===== src/Server.antt =====
-- The server around its endpoints: src/config.rs, src/health.rs, the routes and the protection of
-- /metrics in src/lib.rs, and src/main.rs.
pub mod Config
pub mod Health
pub mod MetricsRoute
pub mod Startup
pub mod Boot
pub mod Routes
pub mod App
pub mod Access
pub mod Process
pub mod Setup
pub mod Frame
pub mod Idle
pub mod Still
pub mod Writers
pub mod Preserved
pub mod Schema
pub mod Written
pub mod Distinct
pub mod Checked
pub mod Holding
pub mod Held
pub mod Sessions
pub mod Accounts
pub mod Apart
pub mod Reads
pub mod Lasting
pub mod Revoked
pub mod Keyholders
pub mod Untouched
pub mod Ledgers
pub mod Intact
pub mod Tables
pub mod Counts
pub mod Verdicts
pub mod Tally
pub mod Tallied
mod Examples
