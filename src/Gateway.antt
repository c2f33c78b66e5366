-- ===== src/Gateway.antt =====
-- The gateway: backend/src/gateway.
pub mod RateLimiter
pub mod JwtTokenService
pub mod HttpServer
