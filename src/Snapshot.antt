-- ===== src/Snapshot.antt =====
-- The persisted form of the FSM: FSMSnapshot, Snapshot and Restore (internal/cluster/raft/fsm.go).
pub mod Restore
pub mod Rebuild
pub mod Kept
pub mod Consistent
pub mod Rows
pub mod RoundTrip
pub mod Reached
pub mod Lost
use iot_edge_db.Prelude.{Option, some, GoString, ℤ}
use iot_edge_db.GoMap.{Map, copied, str_key, int_key}
use iot_edge_db.Types.{
  NodeInfo, FileEntry, TokenEntry, OrganizationEntry, TeamEntry, RoleEntry,
  MeasurementPermissionEntry, TokenMembershipEntry,
}
use iot_edge_db.Fsm.State.{ClusterFsm}

-- The pointers of the maps may be nil in a snapshot that is decoded. Restore takes the map of nodes as
-- it is, so the record has no nil node.
pub record FsmSnapshot : Type 0 where
  pub nodes : Map GoString NodeInfo
  pub primary_writer_id : GoString
  pub active_compactor_id : GoString
  pub files : Map GoString (Option FileEntry)
  pub tokens : Map ℤ (Option TokenEntry)
  pub organizations : Map ℤ (Option OrganizationEntry)
  pub teams : Map ℤ (Option TeamEntry)
  pub roles : Map ℤ (Option RoleEntry)
  pub measurement_permissions : Map ℤ (Option MeasurementPermissionEntry)
  pub token_memberships : Map ℤ (Option TokenMembershipEntry)

-- A deep copy of the primary maps; the indices are not persisted.
unfoldable pub snapshot : ClusterFsm → FsmSnapshot
unfolding copied
snapshot f = record {
  nodes = copied (λ n. n) f.node_table.nodes;
  primary_writer_id = f.node_table.primary_writer_id;
  active_compactor_id = f.node_table.active_compactor_id;
  files = copied some f.manifest.files;
  tokens = copied some f.auth.tokens;
  organizations = copied some f.rbac.organizations;
  teams = copied some f.rbac.teams;
  roles = copied some f.rbac.roles;
  measurement_permissions = copied some f.rbac.measurement_permissions;
  token_memberships = copied some f.rbac.token_memberships;
}
