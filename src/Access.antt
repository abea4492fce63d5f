-- ===== src/Access.antt =====
-- Who may use the service: API keys and their store, tiers and limits, the issuance of keys, feature
-- flags and the checks of a deployment at its start.
pub mod Environ
pub mod KeyStore
pub mod Auth
pub mod Limits
pub mod Features
pub mod Profile
pub mod Admin
