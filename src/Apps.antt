-- ===== src/Apps.antt =====
-- services/app-service/src/services/app-service.ts: the app catalog, versions and assignments.
pub mod Model
pub mod Service
pub mod Versions
pub mod Drift
