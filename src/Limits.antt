-- ===== src/Limits.antt =====
-- What bounds the calls of outside services: the rate of a tenant, and the attempts of a call.
pub mod RateLimiter
pub mod Retry
mod Tests
