-- ===== src/Devices.antt =====
-- The registry of devices and what rests on it: src/devices.rs, src/devices_api.rs,
-- src/device_auth_api.rs.
pub mod Registry
pub mod Api
pub mod AuthApi
pub mod Ownership
pub mod Naming
pub mod Tenancy
pub mod Revocation
pub mod Vouched
pub mod Effects
pub mod Unique
pub mod Heirs
pub mod Openings
mod Examples
