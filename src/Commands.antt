-- ===== src/Commands.antt =====
-- services/admin-api/src/routes/commands.ts and the method sendCommand of
-- services/admin-api/src/services/device-service.ts: commands for devices.
pub mod Service
pub mod Targets
