-- ===== src/Dict.antt =====
-- The dictionary and the versioned configuration (backend/internal/dict).
pub mod Defs
pub mod Repo
pub mod Service
pub mod Fresh
pub mod Items
pub mod Config
