-- ===== src/Auth.antt =====
-- packages/observability/auth.py: sessions, roles and the rate limiter of the API.
pub mod Session
pub mod Limiter
mod Entitled
mod Window
mod Tests
