-- ===== src/Admin.antt =====
-- The admin web UI, internal/admin: the brake on password guessing, the sessions, and the handler
-- with its layers.
pub mod Throttle
pub mod Session
pub mod Handler
