-- ===== src/Groups.antt =====
-- services/admin-api/src/routes/groups.ts: groups of devices, their nesting and their members.
pub mod Routes
pub mod Depth
