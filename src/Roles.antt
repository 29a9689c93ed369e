-- ===== src/Roles.antt =====
-- services/admin-api/src/routes/roles.ts: the roles of an organization, who has them, and the
-- permissions that the middleware caches for a user.
pub mod Routes
pub mod Freshness
pub mod Requests
pub mod Handling
pub mod Invariants
