-- ===== src/Types.antt =====
-- The entries that the replicated state holds, the payloads of its commands, the errors that
-- `Apply` returns and the callbacks that it makes (internal/cluster/raft/fsm.go, fsm_rbac.go).
mod Entries
mod Payloads
mod Effects
pub use Entries.*
pub use Payloads.*
unfoldable pub use Effects.*
