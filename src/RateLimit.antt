-- ===== src/RateLimit.antt =====
-- The device rate limiter (backend/src/services/deviceRateLimiter.ts).
pub mod Defs
pub mod Window
pub mod Tokens
