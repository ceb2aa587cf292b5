-- ===== src/Rbac/Members.antt =====
-- The apply functions of the measurement permissions and of the token memberships
-- (internal/cluster/raft/fsm_rbac.go).
use iot_edge_db.Prelude.{
  ℕ, ◌||◌, Option, none, some, [], ◌∷◌, if◌then◌else◌, is_some, ℤ, int64, is_zero,
}
use iot_edge_db.GoMap.{Map, get, put, remove, at, add, drop, int_key}
use iot_edge_db.Types.{
  TokenEntry, MeasurementPermissionEntry, TokenMembershipEntry, CreateMeasurementPermissionPayload,
  AddTokenToTeamPayload, RemoveTokenFromTeamPayload, IdPayload, Error, Outcome, fail, succeed,
  unmarshal_failed, created_at_required, id_required, role_not_found, team_not_found,
  token_not_found, already_member, measurement_permission_created, measurement_permission_deleted,
  membership_added, membership_removed,
}
use iot_edge_db.Rbac.State.{
  Rbac, reject_rbac, validate_measurement_permission_entry, validate_token_membership_entry,
}

abbrev pub stamped_permission : MeasurementPermissionEntry → ℕ → MeasurementPermissionEntry
stamped_permission m log_index = record m { id = int64 log_index; lsn = log_index }

abbrev pub insert_permission : Rbac → MeasurementPermissionEntry → Outcome Rbac
insert_permission f entry =
    succeed
      (record f {
        measurement_permissions = put f.measurement_permissions entry.id entry;
        measurement_perms_by_role = add f.measurement_perms_by_role entry.role_id entry.id tt;
      })
      (measurement_permission_created entry ∷ [])

abbrev pub create_validated : Rbac → MeasurementPermissionEntry → ℕ → Option Error → Outcome Rbac
create_validated f m log_index (some e) = reject_rbac f e
create_validated f m log_index none =
    if is_zero m.created_at_unix_nano
    then reject_rbac f created_at_required
    else if is_some (get f.roles m.role_id)
    then insert_permission f (stamped_permission m log_index)
    else reject_rbac f role_not_found

unfoldable pub apply_create_measurement_permission :
    Rbac → Option CreateMeasurementPermissionPayload → ℕ → Outcome Rbac
unfolding validate_measurement_permission_entry
apply_create_measurement_permission f none log_index = fail f unmarshal_failed
apply_create_measurement_permission f (some p) log_index =
    create_validated f p.measurement_permission log_index
      (validate_measurement_permission_entry p.measurement_permission)

abbrev pub remove_permission : Rbac → ℤ → MeasurementPermissionEntry → Rbac
remove_permission f id existing = record f {
  measurement_permissions = remove f.measurement_permissions id;
  measurement_perms_by_role = drop f.measurement_perms_by_role existing.role_id id;
}

abbrev pub delete_permission_found : Rbac → ℤ → Option MeasurementPermissionEntry → Outcome Rbac
delete_permission_found f id none = succeed f []
delete_permission_found f id (some existing) =
    succeed (remove_permission f id existing) (measurement_permission_deleted id ∷ [])

unfoldable pub apply_delete_measurement_permission : Rbac → Option IdPayload → ℕ → Outcome Rbac
apply_delete_measurement_permission f none log_index = fail f unmarshal_failed
apply_delete_measurement_permission f (some p) log_index =
    if is_zero p.id
    then reject_rbac f id_required
    else delete_permission_found f p.id (get f.measurement_permissions p.id)

abbrev pub stamped_membership : TokenMembershipEntry → ℕ → TokenMembershipEntry
stamped_membership m log_index = record m { id = int64 log_index; lsn = log_index }

abbrev pub insert_membership : Rbac → TokenMembershipEntry → Option ℤ → Outcome Rbac
insert_membership f entry (some other) = reject_rbac f already_member
insert_membership f entry none =
    succeed
      (record f {
        token_memberships = put f.token_memberships entry.id entry;
        token_memberships_by_pair =
            add f.token_memberships_by_pair entry.token_id entry.team_id entry.id;
        token_memberships_by_token = add f.token_memberships_by_token entry.token_id entry.id tt;
        token_memberships_by_team = add f.token_memberships_by_team entry.team_id entry.id tt;
      })
      (membership_added entry ∷ [])

abbrev pub add_validated :
    Map ℤ TokenEntry → Rbac → TokenMembershipEntry → ℕ → Option Error → Outcome Rbac
add_validated tokens f m log_index (some e) = reject_rbac f e
add_validated tokens f m log_index none =
    if is_zero m.created_at_unix_nano
    then reject_rbac f created_at_required
    else if is_some (get tokens m.token_id)
    then (if is_some (get f.teams m.team_id)
        then insert_membership f (stamped_membership m log_index)
            (at f.token_memberships_by_pair m.token_id m.team_id)
        else reject_rbac f team_not_found)
    else reject_rbac f token_not_found

-- `tokens` is the FSM's map of tokens, which this command reads.
unfoldable pub apply_add_token_to_team :
    Map ℤ TokenEntry → Rbac → Option AddTokenToTeamPayload → ℕ → Outcome Rbac
unfolding validate_token_membership_entry
apply_add_token_to_team tokens f none log_index = fail f unmarshal_failed
apply_add_token_to_team tokens f (some p) log_index =
    add_validated tokens f p.membership log_index (validate_token_membership_entry p.membership)

abbrev pub remove_membership : Rbac → ℤ → ℤ → ℤ → Rbac
remove_membership f token team id = record f {
  token_memberships_by_pair = drop f.token_memberships_by_pair token team;
  token_memberships_by_token = drop f.token_memberships_by_token token id;
  token_memberships_by_team = drop f.token_memberships_by_team team id;
  token_memberships = remove f.token_memberships id;
}

abbrev pub remove_membership_found : Rbac → ℤ → ℤ → Option ℤ → Outcome Rbac
remove_membership_found f token team none = succeed f []
remove_membership_found f token team (some id) =
    succeed (remove_membership f token team id) (membership_removed token team ∷ [])

unfoldable pub apply_remove_token_from_team :
    Rbac → Option RemoveTokenFromTeamPayload → ℕ → Outcome Rbac
apply_remove_token_from_team f none log_index = fail f unmarshal_failed
apply_remove_token_from_team f (some p) log_index =
    if is_zero p.token_id || is_zero p.team_id
    then reject_rbac f id_required
    else remove_membership_found f p.token_id p.team_id
        (at f.token_memberships_by_pair p.token_id p.team_id)
