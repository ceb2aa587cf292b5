-- ===== src/Snapshot/Restore.antt =====
-- Restore (internal/cluster/raft/fsm.go). The argument is the snapshot that the JSON decoder returns, and
-- `none` an input that it refuses.
use iot_edge_db.Prelude.{◌+◌, Bool, not, ◌&&◌, Option, none, some, List, [], is_some, GoString, ℤ}
use iot_edge_db.GoMap.{
  Map, Index, empty, get, put, at, add, Sieve, sift, fold_map, str_key, int_key,
}
use iot_edge_db.Types.{
  FileEntry, TokenEntry, OrganizationEntry, TeamEntry, RoleEntry, MeasurementPermissionEntry,
  TokenMembershipEntry, Outcome, fail, succeed, unmarshal_failed,
}
use iot_edge_db.Manifest.Path.{validate_manifest_path}
use iot_edge_db.Manifest.State.{Manifest}
use iot_edge_db.Tokens.Prefixes.{add_prefix}
use iot_edge_db.Tokens.State.{Tokens, validate_token_entry}
use iot_edge_db.Rbac.State.{
  Rbac, validate_organization_entry, validate_team_entry, validate_role_entry,
  validate_measurement_permission_entry, validate_token_membership_entry,
}
use iot_edge_db.Fsm.State.{ClusterFsm}
use iot_edge_db.Snapshot.{FsmSnapshot}

-- A validation that returns nil.
abbrev pub passes {ℓ} : {E : Type ℓ} → Option E → Bool
passes o = not (is_some o)

-- A loop that marks nothing.
abbrev pub unmarked {ℓ} : {K V : Type ℓ} → Unit {ℓ} → K → V → Unit {ℓ}
unmarked u k v = u

abbrev pub accepts_file : Unit {0} → GoString → FileEntry → Bool
accepts_file u path entry = passes (validate_manifest_path path)

abbrev pub accepts_token : Unit {0} → ℤ → TokenEntry → Bool
accepts_token u id entry = passes (validate_token_entry entry)

abbrev pub accepts_organization : Map GoString ℤ → ℤ → OrganizationEntry → Bool
accepts_organization names id entry =
    passes (validate_organization_entry entry) && not (is_some (get names entry.name))

abbrev pub index_organization : Map GoString ℤ → ℤ → OrganizationEntry → Map GoString ℤ
index_organization names id entry = put names entry.name id

abbrev pub accepts_team : Map ℤ OrganizationEntry → Index ℤ GoString ℤ → ℤ → TeamEntry → Bool
accepts_team orgs names id entry =
    passes (validate_team_entry entry)
    && is_some (get orgs entry.organization_id)
    && not (is_some (at names entry.organization_id entry.name))

abbrev pub index_team : Index ℤ GoString ℤ → ℤ → TeamEntry → Index ℤ GoString ℤ
index_team names id entry = add names entry.organization_id entry.name id

abbrev pub accepts_role : Map ℤ TeamEntry → Unit {0} → ℤ → RoleEntry → Bool
accepts_role teams u id entry =
    passes (validate_role_entry entry) && is_some (get teams entry.team_id)

abbrev pub accepts_permission : Map ℤ RoleEntry → Unit {0} → ℤ → MeasurementPermissionEntry → Bool
accepts_permission roles u id entry =
    passes (validate_measurement_permission_entry entry) && is_some (get roles entry.role_id)

abbrev pub accepts_membership :
    Map ℤ TokenEntry → Map ℤ TeamEntry → Index ℤ ℤ ℤ → ℤ → TokenMembershipEntry → Bool
accepts_membership tokens teams pairs id entry =
    passes (validate_token_membership_entry entry)
    && is_some (get tokens entry.token_id)
    && is_some (get teams entry.team_id)
    && not (is_some (at pairs entry.token_id entry.team_id))

abbrev pub index_pair : Index ℤ ℤ ℤ → ℤ → TokenMembershipEntry → Index ℤ ℤ ℤ
index_pair pairs id entry = add pairs entry.token_id entry.team_id id

-- The loops that rebuild the other indices.
abbrev pub index_file :
    Index GoString GoString Unit → GoString → FileEntry → Index GoString GoString Unit
index_file idx path entry = add idx entry.database path tt

abbrev pub index_prefix : Map GoString (List ℤ) → ℤ → TokenEntry → Map GoString (List ℤ)
index_prefix m id entry = add_prefix m entry.token_prefix id

abbrev pub index_token : Map GoString ℤ → ℤ → TokenEntry → Map GoString ℤ
index_token names id entry = put names entry.name id

abbrev pub index_role : Index ℤ ℤ Unit → ℤ → RoleEntry → Index ℤ ℤ Unit
index_role idx id entry = add idx entry.team_id id tt

abbrev pub index_permission : Index ℤ ℤ Unit → ℤ → MeasurementPermissionEntry → Index ℤ ℤ Unit
index_permission idx id entry = add idx entry.role_id id tt

abbrev pub index_token_member : Index ℤ ℤ Unit → ℤ → TokenMembershipEntry → Index ℤ ℤ Unit
index_token_member idx id entry = add idx entry.token_id id tt

abbrev pub index_team_member : Index ℤ ℤ Unit → ℤ → TokenMembershipEntry → Index ℤ ℤ Unit
index_team_member idx id entry = add idx entry.team_id id tt

unfoldable pub restored_files : FsmSnapshot → Sieve GoString FileEntry Unit
unfolding sift
restored_files s = sift accepts_file unmarked s.files tt

unfoldable pub restored_tokens : FsmSnapshot → Sieve ℤ TokenEntry Unit
unfolding sift
restored_tokens s = sift accepts_token unmarked s.tokens tt

unfoldable pub restored_orgs : FsmSnapshot → Sieve ℤ OrganizationEntry (Map GoString ℤ)
unfolding sift
restored_orgs s = sift accepts_organization index_organization s.organizations empty

unfoldable pub restored_teams :
    FsmSnapshot → Map ℤ OrganizationEntry → Sieve ℤ TeamEntry (Index ℤ GoString ℤ)
unfolding sift
restored_teams s orgs = sift (accepts_team orgs) index_team s.teams empty

unfoldable pub restored_roles : FsmSnapshot → Map ℤ TeamEntry → Sieve ℤ RoleEntry Unit
unfolding sift
restored_roles s teams = sift (accepts_role teams) unmarked s.roles tt

unfoldable pub restored_permissions :
    FsmSnapshot → Map ℤ RoleEntry → Sieve ℤ MeasurementPermissionEntry Unit
unfolding sift
restored_permissions s roles = sift (accepts_permission roles) unmarked s.measurement_permissions tt

unfoldable pub restored_memberships :
    FsmSnapshot → Map ℤ TokenEntry → Map ℤ TeamEntry → Sieve ℤ TokenMembershipEntry (Index ℤ ℤ ℤ)
unfolding sift
restored_memberships s tokens teams =
    sift (accepts_membership tokens teams) index_pair s.token_memberships empty

unfoldable pub restore_manifest : Manifest → FsmSnapshot → Manifest
unfolding restored_files fold_map
restore_manifest m s =
    let r = restored_files s in
    record {
      files = r.kept;
      files_by_db = fold_map index_file r.kept empty;
      keys_cache = none;
      rejected_paths = m.rejected_paths + r.refused;
    }

unfoldable pub restore_tokens : Tokens → FsmSnapshot → Tokens
unfolding restored_tokens fold_map
restore_tokens f s =
    let r = restored_tokens s in
    record {
      tokens = r.kept;
      tokens_by_prefix = fold_map index_prefix r.kept empty;
      tokens_by_name = fold_map index_token r.kept empty;
      rejected_tokens = f.rejected_tokens + r.refused;
    }

unfoldable pub restore_rbac : Rbac → Map ℤ TokenEntry → FsmSnapshot → Rbac
unfolding restored_orgs restored_teams restored_roles restored_permissions restored_memberships
    fold_map
restore_rbac f tokens s =
    let orgs = restored_orgs s in
    let teams = restored_teams s orgs.kept in
    let roles = restored_roles s teams.kept in
    let perms = restored_permissions s roles.kept in
    let members = restored_memberships s tokens teams.kept in
    record {
      organizations = orgs.kept;
      organizations_by_name = fold_map index_organization orgs.kept empty;
      teams = teams.kept;
      teams_by_org = fold_map index_team teams.kept empty;
      roles = roles.kept;
      roles_by_team = fold_map index_role roles.kept empty;
      measurement_permissions = perms.kept;
      measurement_perms_by_role = fold_map index_permission perms.kept empty;
      token_memberships = members.kept;
      token_memberships_by_pair = fold_map index_pair members.kept empty;
      token_memberships_by_token = fold_map index_token_member members.kept empty;
      token_memberships_by_team = fold_map index_team_member members.kept empty;
      rejected_rbac =
          f.rejected_rbac + orgs.refused + teams.refused + roles.refused + perms.refused
          + members.refused;
    }

unfoldable pub restore : ClusterFsm → Option FsmSnapshot → Outcome ClusterFsm
unfolding restore_manifest restore_tokens restore_rbac
restore f none = fail f unmarshal_failed
restore f (some s) =
    let auth = restore_tokens f.auth s in
    succeed
      (record {
        node_table = record {
          nodes = s.nodes;
          primary_writer_id = s.primary_writer_id;
          active_compactor_id = s.active_compactor_id;
        };
        manifest = restore_manifest f.manifest s;
        auth = auth;
        rbac = restore_rbac f.rbac auth.tokens s;
      })
      []
