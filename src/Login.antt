-- ===== src/Login.antt =====
-- services/admin-api/src/services/auth-service.ts: passwords, and the tokens that a login and a
-- refresh give.
pub mod Tokens
pub mod Passwords
pub mod Service
pub mod Issue
