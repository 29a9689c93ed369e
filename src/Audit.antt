-- ===== src/Audit.antt =====
-- services/audit-service/src/services/audit-service.ts, the queries and the writes of the audit log
-- with their numbered parameters, its export and its partitions, and
-- services/audit-service/src/subscribers/audit-subscriber.ts, which fills it from events.
pub mod Query
pub mod Placeholders
pub mod Writing
pub mod Rows
pub mod Batches
pub mod Subscriber
pub mod Delivery
pub mod Idle
pub mod Partitions
pub mod Coverage
pub mod Export
