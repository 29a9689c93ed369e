-- ===== src/Webhooks.antt =====
-- services/notification-service/src/services/webhook-service.ts: deliveries and retries.
pub mod Delivery
pub mod Frame
pub mod Settlement
