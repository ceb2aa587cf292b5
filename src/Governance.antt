-- ===== src/Governance.antt =====
-- The limits on queries (internal/governance).
pub mod Window
pub mod Quota
pub mod Ring
pub mod Log
pub mod Spec
pub mod Limits
pub mod Usage
pub mod Manager
pub mod Sync
pub mod Enforced
