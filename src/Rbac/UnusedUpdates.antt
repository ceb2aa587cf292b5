-- ===== src/Rbac/UnusedUpdates.antt =====
-- Which ids the updates of internal/cluster/raft/fsm_rbac.go use.
use iot_edge_db.Prelude.{◌≡◌, refl, Option, none, some, ℕ, ℤ, is_zero, Bool-cases, inl, inr}
use iot_edge_db.GoMap.{get, int_key, str_key}
use iot_edge_db.Types.{
  OrganizationEntry, TeamEntry, RoleEntry, UpdateNamedPayload, UpdateRolePayload, Error,
}
use iot_edge_db.Rbac.State.{Rbac}
use iot_edge_db.Rbac.Staging.{Staged}
use iot_edge_db.Rbac.Organizations
use iot_edge_db.Rbac.Teams
use iot_edge_db.Rbac.Roles
use iot_edge_db.Rbac.Unused.{IsUnused, get-put_unused, rejected-IsUnused}

module _ (f : Rbac) (k : ℤ) (u : IsUnused f k) where
  commit_organization-IsUnused :
      (p : UpdateNamedPayload) (i : ℕ) (e : OrganizationEntry) (s : Option Staged)
      → get f.organizations p.id ≡ some e
      → IsUnused (Organizations.commit_organization f p i e s).state k
  commit_organization-IsUnused p i e none h = rejected-IsUnused f k u
  commit_organization-IsUnused p i e (some s) h = record {
    organization = get-put_unused f.organizations p.id k e _ h u.organization;
    team = u.team;
    role = u.role;
    permission = u.permission;
    membership = u.membership;
  }

  update_organization_found-IsUnused :
      (p : UpdateNamedPayload) (i : ℕ) (o : Option OrganizationEntry)
      → get f.organizations p.id ≡ o
      → IsUnused (Organizations.update_organization_found f p i o).state k
  update_organization_found-IsUnused p i none h = rejected-IsUnused f k u
  update_organization_found-IsUnused p i (some e) h = commit_organization-IsUnused p i e _ h

  update_organization_checked-IsUnused :
      (p : UpdateNamedPayload) (i : ℕ) (v : Option Error)
      → IsUnused (Organizations.update_organization_checked f p i v).state k
  update_organization_checked-IsUnused p i (some x) = rejected-IsUnused f k u
  update_organization_checked-IsUnused p i none = update_organization_found-IsUnused p i _ refl

  pub update_organization-IsUnused :
      (p : Option UpdateNamedPayload) (i : ℕ)
      → IsUnused (Organizations.apply_update_organization f p i).state k
  unfolding Organizations.apply_update_organization
  update_organization-IsUnused none i = u
  update_organization-IsUnused (some p) i = elim (Bool-cases (is_zero p.id)) [
    | inl h ↦ rw h (rejected-IsUnused f k u)
    | inr h ↦ rw h (update_organization_checked-IsUnused p i _)
  ]

  commit_team-IsUnused :
      (p : UpdateNamedPayload) (i : ℕ) (e : TeamEntry) (s : Option Staged)
      → get f.teams p.id ≡ some e
      → IsUnused (Teams.commit_team f p i e s).state k
  commit_team-IsUnused p i e none h = rejected-IsUnused f k u
  commit_team-IsUnused p i e (some s) h = record {
    organization = u.organization;
    team = get-put_unused f.teams p.id k e _ h u.team;
    role = u.role;
    permission = u.permission;
    membership = u.membership;
  }

  update_team_found-IsUnused :
      (p : UpdateNamedPayload) (i : ℕ) (o : Option TeamEntry)
      → get f.teams p.id ≡ o
      → IsUnused (Teams.update_team_found f p i o).state k
  update_team_found-IsUnused p i none h = rejected-IsUnused f k u
  update_team_found-IsUnused p i (some e) h = commit_team-IsUnused p i e _ h

  update_team_checked-IsUnused :
      (p : UpdateNamedPayload) (i : ℕ) (v : Option Error)
      → IsUnused (Teams.update_team_checked f p i v).state k
  update_team_checked-IsUnused p i (some x) = rejected-IsUnused f k u
  update_team_checked-IsUnused p i none = update_team_found-IsUnused p i _ refl

  pub update_team-IsUnused :
      (p : Option UpdateNamedPayload) (i : ℕ) → IsUnused (Teams.apply_update_team f p i).state k
  unfolding Teams.apply_update_team
  update_team-IsUnused none i = u
  update_team-IsUnused (some p) i = elim (Bool-cases (is_zero p.id)) [
    | inl h ↦ rw h (rejected-IsUnused f k u)
    | inr h ↦ rw h (update_team_checked-IsUnused p i _)
  ]

  update_role_found-IsUnused :
      (p : UpdateRolePayload) (i : ℕ) (o : Option RoleEntry)
      → get f.roles p.id ≡ o
      → IsUnused (Roles.update_role_found f p i o).state k
  update_role_found-IsUnused p i none h = rejected-IsUnused f k u
  update_role_found-IsUnused p i (some e) h = record {
    organization = u.organization;
    team = u.team;
    role = get-put_unused f.roles p.id k e _ h u.role;
    permission = u.permission;
    membership = u.membership;
  }

  update_role_checked-IsUnused :
      (p : UpdateRolePayload) (i : ℕ) (v : Option Error)
      → IsUnused (Roles.update_role_checked f p i v).state k
  update_role_checked-IsUnused p i (some x) = rejected-IsUnused f k u
  update_role_checked-IsUnused p i none = update_role_found-IsUnused p i _ refl

  pub update_role-IsUnused :
      (p : Option UpdateRolePayload) (i : ℕ) → IsUnused (Roles.apply_update_role f p i).state k
  unfolding Roles.apply_update_role
  update_role-IsUnused none i = u
  update_role-IsUnused (some p) i = elim (Bool-cases (is_zero p.id)) [
    | inl h ↦ rw h (rejected-IsUnused f k u)
    | inr h ↦ rw h (update_role_checked-IsUnused p i _)
  ]
