-- ===== src/Sanitize.antt =====
-- services/admin-api/src/middleware/sanitize.ts: the tags that are taken out of texts, and the
-- checks of a request's address and size.
pub mod Filter
pub mod Tags
pub mod Walk
