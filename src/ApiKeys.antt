-- ===== src/ApiKeys.antt =====
-- services/admin-api/src/routes/api-keys.ts, the life of an API key, and `authenticateApiKey` of
-- services/admin-api/src/middleware/auth.ts, which checks one.
pub mod Routes
pub mod Authentication
pub mod Prefixes
