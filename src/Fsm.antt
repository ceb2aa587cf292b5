-- ===== src/Fsm.antt =====
-- The whole state machine: its commands, Apply and what every command keeps
-- (internal/cluster/raft/fsm.go).
pub mod Commands
pub mod State
pub mod Keeps
pub mod TokenKeeps
pub mod Consistent
pub mod Ids
pub mod SinglePrimary
pub mod Refused
pub mod FreshIds
pub mod Batches
