-- ===== src/RateLimiter.antt =====
-- services/admin-api/src/middleware/rate-limiter.ts: the sliding window over a Redis sorted set.
pub mod Window
pub mod Entries
pub mod Refinement
pub mod Runs
