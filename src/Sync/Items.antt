-- ===== src/Sync/Items.antt =====
-- The four item handlers of backend/internal/sync/service.go.
mod Requests
mod Inserts
mod Handlers
pub use Requests.*
unfoldable pub use Inserts.*
unfoldable pub use Handlers.*
