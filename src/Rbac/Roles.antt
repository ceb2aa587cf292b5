-- ===== src/Rbac/Roles.antt =====
-- The apply functions of the roles (internal/cluster/raft/fsm_rbac.go).
use iot_edge_db.Prelude.{
  ℕ, Option, none, some, List, [], ◌∷◌, if◌then◌else◌, is_some, GoString, bytes, ℤ, int64, is_zero,
}
use iot_edge_db.GoMap.{get, put, remove, add, drop, int_key}
use iot_edge_db.Types.{
  RoleEntry, CreateRolePayload, UpdateRolePayload, IdPayload, Error, Outcome, fail, succeed, ◌>>◌,
  unmarshal_failed, created_at_required, id_required, team_not_found, role_not_found, role_created,
  role_updated, role_deleted,
}
use iot_edge_db.Tokens.Permissions.{validate_permission_string}
use iot_edge_db.Rbac.State.{Rbac, reject_rbac, check_pattern, validate_role_entry}
use iot_edge_db.Rbac.Cascade.{cascade_delete_role}
use iot_edge_db.Rbac.Staging.{is_field}

abbrev pub stamped_role : RoleEntry → ℕ → RoleEntry
stamped_role r log_index = record r { id = int64 log_index; lsn = log_index }

abbrev pub insert_role : Rbac → RoleEntry → Outcome Rbac
insert_role f entry =
    succeed
      (record f {
        roles = put f.roles entry.id entry;
        roles_by_team = add f.roles_by_team entry.team_id entry.id tt;
      })
      (role_created entry ∷ [])

abbrev pub create_validated : Rbac → RoleEntry → ℕ → Option Error → Outcome Rbac
create_validated f r log_index (some e) = reject_rbac f e
create_validated f r log_index none =
    if is_zero r.created_at_unix_nano
    then reject_rbac f created_at_required
    else if is_some (get f.teams r.team_id)
    then insert_role f (stamped_role r log_index)
    else reject_rbac f team_not_found

unfoldable pub apply_create_role : Rbac → Option CreateRolePayload → ℕ → Outcome Rbac
unfolding validate_role_entry
apply_create_role f none log_index = fail f unmarshal_failed
apply_create_role f (some p) log_index =
    create_validated f p.role log_index (validate_role_entry p.role)

-- The body of the loop that refuses a bad pattern or bad permissions.
abbrev pub check_role_field : UpdateRolePayload → GoString → Option Error
check_role_field p field =
    if is_field (bytes "database_pattern") field
    then check_pattern p.database_pattern
    else if is_field (bytes "permissions") field
    then validate_permission_string p.permissions
    else none

unfoldable pub check_role_fields : UpdateRolePayload → List GoString → Option Error
check_role_fields p [] = none
check_role_fields p (field ∷ rest) = check_role_field p field >> check_role_fields p rest

-- The body of the loop that sets the fields.
abbrev pub set_role_field : UpdateRolePayload → GoString → RoleEntry → RoleEntry
set_role_field p field r =
    if is_field (bytes "database_pattern") field
    then record r { database_pattern = p.database_pattern }
    else if is_field (bytes "permissions") field
    then record r { permissions = p.permissions }
    else r

unfoldable pub set_role_fields : UpdateRolePayload → List GoString → RoleEntry → RoleEntry
set_role_fields p [] r = r
set_role_fields p (field ∷ rest) r = set_role_fields p rest (set_role_field p field r)

abbrev pub update_role_found : Rbac → UpdateRolePayload → ℕ → Option RoleEntry → Outcome Rbac
update_role_found f p log_index none = reject_rbac f role_not_found
update_role_found f p log_index (some existing) =
    let updated : RoleEntry = record (set_role_fields p p.changed_fields existing) {
      lsn = log_index;
    } in
    succeed (record f { roles = put f.roles p.id updated }) (role_updated updated ∷ [])

abbrev pub update_role_checked : Rbac → UpdateRolePayload → ℕ → Option Error → Outcome Rbac
update_role_checked f p log_index (some e) = reject_rbac f e
update_role_checked f p log_index none = update_role_found f p log_index (get f.roles p.id)

unfoldable pub apply_update_role : Rbac → Option UpdateRolePayload → ℕ → Outcome Rbac
unfolding check_role_fields set_role_fields
apply_update_role f none log_index = fail f unmarshal_failed
apply_update_role f (some p) log_index =
    if is_zero p.id
    then reject_rbac f id_required
    else update_role_checked f p log_index (check_role_fields p p.changed_fields)

unfoldable pub remove_role : Rbac → ℤ → RoleEntry → Rbac
unfolding cascade_delete_role
remove_role f id existing =
    let g = cascade_delete_role f id in
    record g { roles = remove g.roles id; roles_by_team = drop g.roles_by_team existing.team_id id }

abbrev pub delete_role_found : Rbac → ℤ → Option RoleEntry → Outcome Rbac
delete_role_found f id none = succeed f []
delete_role_found f id (some existing) = succeed (remove_role f id existing) (role_deleted id ∷ [])

unfoldable pub apply_delete_role : Rbac → Option IdPayload → ℕ → Outcome Rbac
unfolding remove_role
apply_delete_role f none log_index = fail f unmarshal_failed
apply_delete_role f (some p) log_index =
    if is_zero p.id then reject_rbac f id_required else delete_role_found f p.id (get f.roles p.id)
