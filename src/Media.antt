-- ===== src/Media.antt =====
-- The media assets (backend/internal/media): upload, confirmation, derived tiers, the reaper.
pub mod Keys
pub mod Defs
pub mod Service
pub mod Worker
pub mod Forward
pub mod Confirm
pub mod Replay
pub mod Derived
