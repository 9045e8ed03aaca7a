-- ===== src/Tests.antt =====
-- Concrete states of every part, and the theorems at them.
pub mod DictTests
pub mod SyncTests
pub mod MediaTests
pub mod AuthTests
pub mod ProblemTests
pub mod ExportTests
pub mod RbacTests
pub mod UserTests
pub mod InspectionTests
