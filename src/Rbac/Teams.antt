-- ===== src/Rbac/Teams.antt =====
-- The apply functions of the teams (internal/cluster/raft/fsm_rbac.go).
use iot_edge_db.Prelude.{
  ℕ, true, false, Option, none, some, [], ◌∷◌, if◌then◌else◌, is_some, ℤ, int64, is_zero,
}
use iot_edge_db.GoMap.{get, put, remove, at, add, drop, rename, str_key, int_key}
use iot_edge_db.Types.{
  TeamEntry, CreateTeamPayload, UpdateNamedPayload, IdPayload, Error, Outcome, fail, succeed,
  unmarshal_failed, created_at_required, id_required, name_exists, organization_not_found,
  team_not_found, team_created, team_updated, team_deleted,
}
use iot_edge_db.Rbac.State.{Rbac, reject_rbac, validate_team_entry}
use iot_edge_db.Rbac.Cascade.{cascade_delete_team}
use iot_edge_db.Rbac.Staging.{Staged, check_all_changed, stage_all, newer}

abbrev pub insert_team : Rbac → TeamEntry → Option ℤ → Outcome Rbac
insert_team f entry (some other) = reject_rbac f name_exists
insert_team f entry none =
    succeed
      (record f {
        teams = put f.teams entry.id entry;
        teams_by_org = add f.teams_by_org entry.organization_id entry.name entry.id;
      })
      (team_created entry ∷ [])

abbrev pub stamped_team : TeamEntry → ℕ → TeamEntry
stamped_team t log_index = record t {
  id = int64 log_index;
  updated_at_unix_nano =
      if is_zero t.updated_at_unix_nano then t.created_at_unix_nano else t.updated_at_unix_nano;
  enabled = true;
  lsn = log_index;
}

abbrev pub create_validated : Rbac → TeamEntry → ℕ → Option Error → Outcome Rbac
create_validated f t log_index (some e) = reject_rbac f e
create_validated f t log_index none =
    if is_zero t.created_at_unix_nano
    then reject_rbac f created_at_required
    else if is_some (get f.organizations t.organization_id)
    then insert_team f (stamped_team t log_index) (at f.teams_by_org t.organization_id t.name)
    else reject_rbac f organization_not_found

unfoldable pub apply_create_team : Rbac → Option CreateTeamPayload → ℕ → Outcome Rbac
unfolding validate_team_entry
apply_create_team f none log_index = fail f unmarshal_failed
apply_create_team f (some p) log_index =
    create_validated f p.team log_index (validate_team_entry p.team)

abbrev pub commit_team : Rbac → UpdateNamedPayload → ℕ → TeamEntry → Option Staged → Outcome Rbac
commit_team f p log_index existing none = reject_rbac f name_exists
commit_team f p log_index existing (some s) =
    let updated : TeamEntry = record existing {
      name = s.name;
      description = s.description;
      enabled = s.enabled;
      updated_at_unix_nano = newer p.updated_at_unix_nano existing.updated_at_unix_nano;
      lsn = log_index;
    } in
    succeed
      (record f {
        teams = put f.teams p.id updated;
        teams_by_org =
            if s.name_changed
            then rename f.teams_by_org existing.organization_id existing.name updated.name p.id
            else f.teams_by_org;
      })
      (team_updated updated ∷ [])

abbrev pub staged_team : TeamEntry → Staged
staged_team e = record {
  name = e.name;
  description = e.description;
  enabled = e.enabled;
  name_changed = false;
}

abbrev pub update_team_found : Rbac → UpdateNamedPayload → ℕ → Option TeamEntry → Outcome Rbac
update_team_found f p log_index none = reject_rbac f team_not_found
update_team_found f p log_index (some existing) = commit_team f p log_index existing (
    stage_all p existing.name (is_some (at f.teams_by_org existing.organization_id p.name))
      p.changed_fields (staged_team existing))

abbrev pub update_team_checked : Rbac → UpdateNamedPayload → ℕ → Option Error → Outcome Rbac
update_team_checked f p log_index (some e) = reject_rbac f e
update_team_checked f p log_index none = update_team_found f p log_index (get f.teams p.id)

unfoldable pub apply_update_team : Rbac → Option UpdateNamedPayload → ℕ → Outcome Rbac
unfolding check_all_changed stage_all
apply_update_team f none log_index = fail f unmarshal_failed
apply_update_team f (some p) log_index =
    if is_zero p.id
    then reject_rbac f id_required
    else update_team_checked f p log_index (check_all_changed p p.changed_fields)

unfoldable pub remove_team : Rbac → ℤ → TeamEntry → Rbac
unfolding cascade_delete_team
remove_team f id existing =
    let g = cascade_delete_team f id in
    record g {
      teams = remove g.teams id;
      teams_by_org = drop g.teams_by_org existing.organization_id existing.name;
    }

abbrev pub delete_team_found : Rbac → ℤ → Option TeamEntry → Outcome Rbac
delete_team_found f id none = succeed f []
delete_team_found f id (some existing) = succeed (remove_team f id existing) (team_deleted id ∷ [])

unfoldable pub apply_delete_team : Rbac → Option IdPayload → ℕ → Outcome Rbac
unfolding remove_team
apply_delete_team f none log_index = fail f unmarshal_failed
apply_delete_team f (some p) log_index =
    if is_zero p.id then reject_rbac f id_required else delete_team_found f p.id (get f.teams p.id)
