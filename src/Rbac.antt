-- ===== src/Rbac.antt =====
-- services/admin-api/src/middleware/rbac.ts: permissions, their cache and `requirePermission`.
pub mod Cache
pub mod Permissions
pub mod Matching
pub mod Coherence
