-- ===== src/Siem.antt =====
-- services/audit-service/src/services/siem-forwarder.ts: the buffer of audit events and its way to
-- an external collector.
pub mod Forwarder
pub mod Runs
pub mod Timers
