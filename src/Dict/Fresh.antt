-- ===== src/Dict/Fresh.antt =====
-- That every operation keeps the stored hash of a live type equal to the digest of its items.
pub mod Rows
pub mod Inv
pub mod Recompute
pub mod Items
pub mod Keeps
pub mod Types
pub mod Runs
