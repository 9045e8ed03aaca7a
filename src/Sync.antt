-- ===== src/Sync.antt =====
-- The ingest of offline batches (backend/internal/sync).
pub mod Defs
pub mod Items
pub mod Batch
pub mod Sound
pub mod Keeps
pub mod Results
pub mod Isolation
pub mod Replay
pub mod Again
