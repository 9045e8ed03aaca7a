-- ===== src/User.antt =====
-- The administration of accounts (backend/internal/user).
pub mod Accounts
pub mod Names
