-- ===== src/Rbac.antt =====
-- Roles, permissions and the policy rules behind them (backend/internal/rbac).
pub mod Rules
pub mod Service
pub mod Gate
pub mod Exact
pub mod Access
