-- ===== src/Httpx.antt =====
-- The answers' codes and the paging of lists (backend/internal/httpx).
pub mod Paging
pub mod Codes
