-- ===== src/Sessions.antt =====
-- The session checks of services/admin-api/src/middleware/auth.ts, which keeps its sessions in Redis.
pub mod Store
pub mod Checks
pub mod Limit
pub mod Timeouts
pub mod Oldest
