-- ===== src/Geofences.antt =====
-- services/admin-api/src/routes/geofences.ts: geofences, their triggers, and the devices inside.
pub mod Routes
pub mod Inside
pub mod Handlers
pub mod Isolation
