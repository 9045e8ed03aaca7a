-- ===== src/Auth.antt =====
-- Authentication (backend/internal/auth): sessions with single-use refresh tokens, and passwords.
pub mod Refresh
pub mod Service
pub mod SingleUse
pub mod Sessions
