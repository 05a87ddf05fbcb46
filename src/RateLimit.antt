-- ===== src/RateLimit.antt =====
-- internal/ratelimit: the token buckets of the rate limiter and the coordinator of several processes.
pub mod Limiter
pub mod Server
mod Tests
