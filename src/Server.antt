-- ===== src/Server.antt =====
-- The middleware of the server (backend/internal/server/middleware).
pub mod Limit
pub mod Window
