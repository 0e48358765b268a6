-- ===== src/Cloud.antt =====
-- The relay and the accounts of internal/cloud.
pub mod Auth
pub mod Devices
pub mod Oauth
pub mod Quotas
pub mod Relay
