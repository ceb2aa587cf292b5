-- ===== src/Rbac/OrganizationKeeps.antt =====
-- The commands that create and update organizations (internal/cluster/raft/fsm_rbac.go), and the invariant
-- of the RBAC tables.
use iot_edge_db.Prelude.{
  none_of_is_some, ◌≡◌, refl, ap, ◌∙◌, Option, none, some, is_some, ℕ, ℤ, int64, is_zero,
  Bool-cases, inl, inr,
}
use iot_edge_db.GoMap.{Map, get, int_key, str_key}
use iot_edge_db.Types.{
  TokenEntry, OrganizationEntry, UpdateNamedPayload, CreateOrganizationPayload, Error,
}
use iot_edge_db.Rbac.State.{Rbac}
use iot_edge_db.Rbac.Staging.{Staged}
use iot_edge_db.Rbac.Staged.{kept, renamed, IsStagedIfAny, stage_all-IsStaged}
use iot_edge_db.Rbac.Organizations
use iot_edge_db.Rbac.Tables.{inc_rejected_rbac-IsConsistent, IsConsistent}
use iot_edge_db.Rbac.Rows.{OrgsOk-add, OrgsOk-restate, OrgsOk-rename, TeamsOk-put_org}

module _ (tokens : Map ℤ TokenEntry) (f : Rbac) (c : IsConsistent tokens f) where
  insert_organization-IsConsistent :
      (e : OrganizationEntry) (o : Option ℤ)
      → get f.organizations_by_name e.name ≡ o
      → get f.organizations e.id ≡ none
      → IsConsistent tokens (Organizations.insert_organization f e o).state
  insert_organization-IsConsistent e (some x) h fresh = inc_rejected_rbac-IsConsistent c
  insert_organization-IsConsistent e none h fresh = record {
    orgs = OrgsOk-add f.organizations f.organizations_by_name c.orgs e fresh h;
    teams = TeamsOk-put_org f.organizations f.teams f.teams_by_org c.teams e.id e;
    below = record { roles = c.below.roles; perms = c.below.perms; members = c.below.members };
  }

  created_organization-IsConsistent :
      (o : OrganizationEntry) (i : ℕ) (v : Option Error)
      → get f.organizations (int64 i) ≡ none
      → IsConsistent tokens (Organizations.create_validated f o i v).state
  created_organization-IsConsistent o i (some x) fresh = inc_rejected_rbac-IsConsistent c
  created_organization-IsConsistent o i none fresh =
      elim (Bool-cases (is_zero o.created_at_unix_nano)) [
        | inl h ↦ rw h (inc_rejected_rbac-IsConsistent c)
        | inr h ↦
            rw h (
              insert_organization-IsConsistent (Organizations.stamped_organization o i) _ refl
                fresh)
      ]

  -- In a consistent state in which the log index is not yet an organization's id, creating an
  -- organization leaves the RBAC indices exact and no orphan, whatever the command holds.
  pub create_organization-IsConsistent :
      (p : Option CreateOrganizationPayload) (i : ℕ)
      → get f.organizations (int64 i) ≡ none
      → IsConsistent tokens (Organizations.apply_create_organization f p i).state
  unfolding Organizations.apply_create_organization
  create_organization-IsConsistent none i fresh = c
  create_organization-IsConsistent (some p) i fresh =
      created_organization-IsConsistent p.organization i _ fresh

  commit_organization-IsConsistent :
      (p : UpdateNamedPayload) (i : ℕ) (e : OrganizationEntry) (s : Option Staged)
      → get f.organizations p.id ≡ some e
      → IsStagedIfAny p e.name (is_some (get f.organizations_by_name p.name)) s
      → IsConsistent tokens (Organizations.commit_organization f p i e s).state
  commit_organization-IsConsistent p i e none h g = inc_rejected_rbac-IsConsistent c
  commit_organization-IsConsistent p i e (some s) h (kept a b) = rw a (record {
    orgs = OrgsOk-restate f.organizations f.organizations_by_name c.orgs p.id e _ h b;
    teams = TeamsOk-put_org f.organizations f.teams f.teams_by_org c.teams p.id _;
    below = record { roles = c.below.roles; perms = c.below.perms; members = c.below.members };
  })
  commit_organization-IsConsistent p i e (some s) h (renamed a b g) = rw a (record {
    orgs =
        OrgsOk-rename f.organizations f.organizations_by_name c.orgs p.id e _ h
          (ap (get f.organizations_by_name) b ∙ none_of_is_some _ g);
    teams = TeamsOk-put_org f.organizations f.teams f.teams_by_org c.teams p.id _;
    below = record { roles = c.below.roles; perms = c.below.perms; members = c.below.members };
  })

  update_organization_found-IsConsistent :
      (p : UpdateNamedPayload) (i : ℕ) (o : Option OrganizationEntry)
      → get f.organizations p.id ≡ o
      → IsConsistent tokens (Organizations.update_organization_found f p i o).state
  update_organization_found-IsConsistent p i none h = inc_rejected_rbac-IsConsistent c
  update_organization_found-IsConsistent p i (some e) h =
      commit_organization-IsConsistent p i e _ h
        (stage_all-IsStaged p e.name _ p.changed_fields _ (kept refl refl))

  update_organization_checked-IsConsistent :
      (p : UpdateNamedPayload) (i : ℕ) (v : Option Error)
      → IsConsistent tokens (Organizations.update_organization_checked f p i v).state
  update_organization_checked-IsConsistent p i (some x) = inc_rejected_rbac-IsConsistent c
  update_organization_checked-IsConsistent p i none =
      update_organization_found-IsConsistent p i _ refl

  -- In a consistent state, updating an organization leaves the RBAC indices exact and no orphan, whatever
  -- fields the command names, how often, and in which order.
  pub update_organization-IsConsistent :
      (p : Option UpdateNamedPayload) (i : ℕ)
      → IsConsistent tokens (Organizations.apply_update_organization f p i).state
  unfolding Organizations.apply_update_organization
  update_organization-IsConsistent none i = c
  update_organization-IsConsistent (some p) i = elim (Bool-cases (is_zero p.id)) [
    | inl h ↦ rw h (inc_rejected_rbac-IsConsistent c)
    | inr h ↦ rw h (update_organization_checked-IsConsistent p i _)
  ]
