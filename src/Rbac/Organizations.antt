-- ===== src/Rbac/Organizations.antt =====
-- The apply functions of the organizations (internal/cluster/raft/fsm_rbac.go).
use iot_edge_db.Prelude.{
  ℕ, true, false, Option, none, some, [], ◌∷◌, if◌then◌else◌, is_some, ℤ, int64, is_zero,
}
use iot_edge_db.GoMap.{get, put, remove, str_key, int_key}
use iot_edge_db.Types.{
  OrganizationEntry, CreateOrganizationPayload, UpdateNamedPayload, IdPayload, Error, Outcome, fail,
  succeed, unmarshal_failed, created_at_required, id_required, name_exists, organization_not_found,
  organization_created, organization_updated, organization_deleted,
}
use iot_edge_db.Rbac.State.{Rbac, reject_rbac, validate_organization_entry}
use iot_edge_db.Rbac.Cascade.{cascade_delete_org}
use iot_edge_db.Rbac.Staging.{Staged, check_all_changed, stage_all, newer}

abbrev pub insert_organization : Rbac → OrganizationEntry → Option ℤ → Outcome Rbac
insert_organization f entry (some other) = reject_rbac f name_exists
insert_organization f entry none =
    succeed
      (record f {
        organizations = put f.organizations entry.id entry;
        organizations_by_name = put f.organizations_by_name entry.name entry.id;
      })
      (organization_created entry ∷ [])

abbrev pub stamped_organization : OrganizationEntry → ℕ → OrganizationEntry
stamped_organization o log_index = record o {
  id = int64 log_index;
  updated_at_unix_nano =
      if is_zero o.updated_at_unix_nano then o.created_at_unix_nano else o.updated_at_unix_nano;
  enabled = true;
  lsn = log_index;
}

abbrev pub create_validated : Rbac → OrganizationEntry → ℕ → Option Error → Outcome Rbac
create_validated f o log_index (some e) = reject_rbac f e
create_validated f o log_index none =
    if is_zero o.created_at_unix_nano
    then reject_rbac f created_at_required
    else insert_organization f (stamped_organization o log_index)
        (get f.organizations_by_name o.name)

unfoldable pub apply_create_organization :
    Rbac → Option CreateOrganizationPayload → ℕ → Outcome Rbac
unfolding validate_organization_entry
apply_create_organization f none log_index = fail f unmarshal_failed
apply_create_organization f (some p) log_index =
    create_validated f p.organization log_index (validate_organization_entry p.organization)

abbrev pub commit_organization :
    Rbac → UpdateNamedPayload → ℕ → OrganizationEntry → Option Staged → Outcome Rbac
commit_organization f p log_index existing none = reject_rbac f name_exists
commit_organization f p log_index existing (some s) =
    let updated : OrganizationEntry = record existing {
      name = s.name;
      description = s.description;
      enabled = s.enabled;
      updated_at_unix_nano = newer p.updated_at_unix_nano existing.updated_at_unix_nano;
      lsn = log_index;
    } in
    succeed
      (record f {
        organizations = put f.organizations p.id updated;
        organizations_by_name =
            if s.name_changed
            then put (remove f.organizations_by_name existing.name) updated.name p.id
            else f.organizations_by_name;
      })
      (organization_updated updated ∷ [])

abbrev pub staged_organization : OrganizationEntry → Staged
staged_organization e = record {
  name = e.name;
  description = e.description;
  enabled = e.enabled;
  name_changed = false;
}

abbrev pub update_organization_found :
    Rbac → UpdateNamedPayload → ℕ → Option OrganizationEntry → Outcome Rbac
update_organization_found f p log_index none = reject_rbac f organization_not_found
update_organization_found f p log_index (some existing) =
    commit_organization f p log_index existing (
      stage_all p existing.name (is_some (get f.organizations_by_name p.name)) p.changed_fields
        (staged_organization existing))

abbrev pub update_organization_checked : Rbac → UpdateNamedPayload → ℕ → Option Error → Outcome Rbac
update_organization_checked f p log_index (some e) = reject_rbac f e
update_organization_checked f p log_index none =
    update_organization_found f p log_index (get f.organizations p.id)

unfoldable pub apply_update_organization : Rbac → Option UpdateNamedPayload → ℕ → Outcome Rbac
unfolding check_all_changed stage_all
apply_update_organization f none log_index = fail f unmarshal_failed
apply_update_organization f (some p) log_index =
    if is_zero p.id
    then reject_rbac f id_required
    else update_organization_checked f p log_index (check_all_changed p p.changed_fields)

unfoldable pub remove_organization : Rbac → ℤ → OrganizationEntry → Rbac
unfolding cascade_delete_org
remove_organization f id existing =
    let g = cascade_delete_org f id in
    record g {
      organizations = remove g.organizations id;
      organizations_by_name = remove g.organizations_by_name existing.name;
      teams_by_org = remove g.teams_by_org id;
    }

abbrev pub delete_organization_found : Rbac → ℤ → Option OrganizationEntry → Outcome Rbac
delete_organization_found f id none = succeed f []
delete_organization_found f id (some existing) =
    succeed (remove_organization f id existing) (organization_deleted id ∷ [])

unfoldable pub apply_delete_organization : Rbac → Option IdPayload → ℕ → Outcome Rbac
unfolding remove_organization
apply_delete_organization f none log_index = fail f unmarshal_failed
apply_delete_organization f (some p) log_index =
    if is_zero p.id
    then reject_rbac f id_required
    else delete_organization_found f p.id (get f.organizations p.id)
