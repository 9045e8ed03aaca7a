-- ===== src/Export.antt =====
-- Export jobs, their worker and their progress stream (backend/internal/export).
pub mod Defs
pub mod Service
pub mod Builders
pub mod Worker
pub mod Stream
pub mod Ends
pub mod Pages
pub mod Keeps
pub mod Runs
pub mod Outcomes
