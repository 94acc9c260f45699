-- ===== src/Proxy.antt =====
-- The reverse proxy, internal/proxy: its per-client rate limiter.
pub mod Limiter
pub mod Router
pub mod Validate
