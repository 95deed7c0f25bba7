-- ===== src/Middleware.antt =====
-- internal/middleware: authentication, roles and rate limits.
pub mod Jwt
pub mod Auth
pub mod RateLimit
pub mod Metrics
pub mod Guard
pub mod Chain
