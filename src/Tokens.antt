-- ===== src/Tokens.antt =====
-- The API tokens of the cluster (internal/cluster/raft/fsm.go): their part of ClusterFSM, their
-- validation and their apply functions. The memberships that a deletion removes stand in Rbac.
pub mod Permissions
pub mod Prefixes
pub mod State
pub mod Consistent
pub mod Preserve
pub mod Unused
