-- ===== src/RateLimit.antt =====
-- Rate limiting (src/token-bucket.ts).
pub mod TokenBucket
mod Tests
