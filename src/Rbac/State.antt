-- ===== src/Rbac/State.antt =====
-- The RBAC part of ClusterFSM (internal/cluster/raft/fsm.go) and the validation of its entries
-- (internal/cluster/raft/fsm_rbac.go).
use iot_edge_db.Prelude.{ℕ, ◌+◌, Option, ltb, GoString, is_empty_string, length, ℤ, le_zero}
use iot_edge_db.GoMap.{Map, Index, empty}
use iot_edge_db.Types.{
  OrganizationEntry, TeamEntry, RoleEntry, MeasurementPermissionEntry, TokenMembershipEntry, Error,
  Outcome, fail, ◌>>◌, name_required, name_too_long, description_too_long, organization_required,
  team_required, role_required, token_required, pattern_required, pattern_too_long,
}
use iot_edge_db.Tokens.Permissions.{validate_permission_string}
use iot_edge_db.Tokens.State.{check}

-- Sets of ids are maps to `Unit`.
pub record Rbac : Type 0 where
  pub organizations : Map ℤ OrganizationEntry
  pub organizations_by_name : Map GoString ℤ
  pub teams : Map ℤ TeamEntry
  pub teams_by_org : Index ℤ GoString ℤ
  pub roles : Map ℤ RoleEntry
  pub roles_by_team : Index ℤ ℤ Unit
  pub measurement_permissions : Map ℤ MeasurementPermissionEntry
  pub measurement_perms_by_role : Index ℤ ℤ Unit
  pub token_memberships : Map ℤ TokenMembershipEntry
  pub token_memberships_by_pair : Index ℤ ℤ ℤ
  pub token_memberships_by_token : Index ℤ ℤ Unit
  pub token_memberships_by_team : Index ℤ ℤ Unit
  pub rejected_rbac : ℕ

abbrev pub new_rbac : Rbac
new_rbac = record {
  organizations = empty;
  organizations_by_name = empty;
  teams = empty;
  teams_by_org = empty;
  roles = empty;
  roles_by_team = empty;
  measurement_permissions = empty;
  measurement_perms_by_role = empty;
  token_memberships = empty;
  token_memberships_by_pair = empty;
  token_memberships_by_token = empty;
  token_memberships_by_team = empty;
  rejected_rbac = 0;
}

abbrev pub inc_rejected_rbac : Rbac → Rbac
inc_rejected_rbac f = record f { rejected_rbac = f.rejected_rbac + 1 }

abbrev pub reject_rbac : Rbac → Error → Outcome Rbac
reject_rbac f e = fail (inc_rejected_rbac f) e

abbrev pub rbac_name_max_len : ℕ
rbac_name_max_len = 256

abbrev pub rbac_pattern_max_len : ℕ
rbac_pattern_max_len = 256

abbrev pub rbac_description_max_len : ℕ
rbac_description_max_len = 1024

abbrev pub check_name : GoString → Option Error
check_name name =
    check (is_empty_string name) name_required
    >> check (ltb rbac_name_max_len (length name)) name_too_long

abbrev pub check_description : GoString → Option Error
check_description description =
    check (ltb rbac_description_max_len (length description)) description_too_long

abbrev pub check_pattern : GoString → Option Error
check_pattern pattern' =
    check (is_empty_string pattern') pattern_required
    >> check (ltb rbac_pattern_max_len (length pattern')) pattern_too_long

unfoldable pub validate_organization_entry : OrganizationEntry → Option Error
validate_organization_entry entry = check_name entry.name >> check_description entry.description

unfoldable pub validate_team_entry : TeamEntry → Option Error
validate_team_entry entry =
    check (le_zero entry.organization_id) organization_required
    >> check_name entry.name
    >> check_description entry.description

unfoldable pub validate_role_entry : RoleEntry → Option Error
validate_role_entry entry =
    check (le_zero entry.team_id) team_required
    >> check_pattern entry.database_pattern
    >> validate_permission_string entry.permissions

unfoldable pub validate_measurement_permission_entry : MeasurementPermissionEntry → Option Error
validate_measurement_permission_entry entry =
    check (le_zero entry.role_id) role_required
    >> check_pattern entry.measurement_pattern
    >> validate_permission_string entry.permissions

unfoldable pub validate_token_membership_entry : TokenMembershipEntry → Option Error
validate_token_membership_entry entry =
    check (le_zero entry.token_id) token_required >> check (le_zero entry.team_id) team_required
