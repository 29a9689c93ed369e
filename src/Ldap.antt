-- ===== src/Ldap.antt =====
-- services/admin-api/src/services/ldap-service.ts: the entries of a directory as users.
pub mod Users
pub mod Upserts
