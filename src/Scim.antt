-- ===== src/Scim.antt =====
-- services/admin-api/src/routes/scim.ts: provisioning of users and groups by an identity provider.
pub mod Auth
pub mod Tokens
pub mod Patches
pub mod Routes
pub mod Others
pub mod Isolation
pub mod Requests
pub mod LastSet
