-- ===== src/Auth.antt =====
-- Accounts, sessions and the OPAQUE login: src/accounts.rs, src/sessions.rs, src/rate_limit.rs,
-- src/auth_api.rs.
pub mod Accounts
pub mod Sessions
pub mod RateLimit
pub mod Api
pub mod Keys
pub mod Lockout
pub mod Login
pub mod Tokens
pub mod Registration
pub mod Flows
pub mod Grants
mod Examples
