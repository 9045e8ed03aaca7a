-- ===== src/Problem.antt =====
-- Problems and their processing log (backend/internal/problem).
pub mod Defs
pub mod Service
pub mod Audit
pub mod Runs
pub mod Queries
pub mod Outcomes
pub mod Scan
pub mod Selected
pub mod Pages
pub mod Logs
pub mod Handlers
