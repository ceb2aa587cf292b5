-- ===== src/Manifest.antt =====
-- The file manifest of the cluster FSM.
pub mod Path
pub mod State
pub mod Batch
pub mod Consistent
pub mod Preserve
pub mod Atomic
pub mod Readers
pub mod Pages
pub mod Cursors
pub mod Paging
