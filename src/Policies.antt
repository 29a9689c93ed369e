-- ===== src/Policies.antt =====
-- services/admin-api/src/services/policy-service.ts: policies, their versions and assignments.
pub mod Service
pub mod Counts
pub mod Snapshots
