-- ===== src/Security.antt =====
-- internal/security: the rate limiter.
pub mod RateLimit
