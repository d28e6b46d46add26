-- ===== src/Auth.antt =====
-- Signing in and staying signed in: refresh tokens, their sessions, and the limits on attempts.
pub mod Rotating
pub mod Tokens
pub mod Sessions
pub mod Cached
pub mod Refresh
pub mod Throttle
mod Tests
