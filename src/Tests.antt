-- ===== src/Tests.antt =====
-- Runs of the state machine (internal/cluster/raft/fsm.go, fsm_rbac.go) on concrete logs, and the
-- theorems applied to the states that they reach.
mod Data
mod History
mod Restored
mod Breakers
mod Governed
mod Paged
mod Nonces
mod Diffs
mod Examples
mod Parts
