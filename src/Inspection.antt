-- ===== src/Inspection.antt =====
-- The inspection sessions (backend/internal/inspection): start, finish, reads and the trajectory.
pub mod Defs
pub mod Service
pub mod Queries
pub mod Runs
