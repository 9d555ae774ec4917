-- ===== src/Auth.antt =====
-- src/auth.rs: the limiter of failed authentications, the caller's address, and the gates.
pub mod RateLimiter
pub mod Request
pub mod ClientIp
pub mod Gates
