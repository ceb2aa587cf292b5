-- ===== src/Rbac/UnusedTeardown.antt =====
-- Which ids the deletions of internal/cluster/raft/fsm_rbac.go use.
use iot_edge_db.Prelude.{◌||◌, Option, none, some, arith, ℕ, ℤ, is_zero, Bool-cases, inl, inr}
use iot_edge_db.GoMap.{inner, values, get-remove, int_key, str_key}
use iot_edge_db.Types.{
  OrganizationEntry, TeamEntry, RoleEntry, MeasurementPermissionEntry, RemoveTokenFromTeamPayload,
  IdPayload,
}
use iot_edge_db.Rbac.State.{Rbac, inc_rejected_rbac}
use iot_edge_db.Rbac.Organizations
use iot_edge_db.Rbac.Teams
use iot_edge_db.Rbac.Roles
use iot_edge_db.Rbac.Members
use iot_edge_db.Rbac.Cascade.{
  cascade_delete_role, cascade_delete_team, delete_teams, cascade_delete_org,
}
use iot_edge_db.Rbac.Unused.{IsUnused}
use iot_edge_db.Rbac.UnusedCascade.{
  cascade_delete_role-IsUnused, delete_teams-IsUnused, cascade_delete_team-IsUnused,
}

module _ (k : ℤ) where
  rejected-IsUnused : (f : Rbac) → IsUnused f k → IsUnused (inc_rejected_rbac f) k
  rejected-IsUnused f u = record {
    organization = u.organization;
    team = u.team;
    role = u.role;
    permission = u.permission;
    membership = u.membership;
  }

  delete_organization_found-IsUnused :
      (f : Rbac) (i : ℤ) (o : Option OrganizationEntry)
      → IsUnused f k
      → IsUnused (Organizations.delete_organization_found f i o).state k
  unfolding Organizations.remove_organization cascade_delete_org
  delete_organization_found-IsUnused f i none u = u
  delete_organization_found-IsUnused f i (some e) u =
      let v = delete_teams-IsUnused k f (values (inner f.teams_by_org i)) u in
      record {
        organization = ground (
          arith,
          get-remove (delete_teams f (values (inner f.teams_by_org i))).organizations i k,
          v.organization,
        );
        team = v.team;
        role = v.role;
        permission = v.permission;
        membership = v.membership;
      }

  pub delete_organization-IsUnused :
      (f : Rbac) (p : Option IdPayload) (i : ℕ)
      → IsUnused f k
      → IsUnused (Organizations.apply_delete_organization f p i).state k
  unfolding Organizations.apply_delete_organization
  delete_organization-IsUnused f none i u = u
  delete_organization-IsUnused f (some p) i u = elim (Bool-cases (is_zero p.id)) [
    | inl h ↦ rw h (rejected-IsUnused f u)
    | inr h ↦ rw h (delete_organization_found-IsUnused f p.id _ u)
  ]

  delete_team_found-IsUnused :
      (f : Rbac) (i : ℤ) (o : Option TeamEntry)
      → IsUnused f k
      → IsUnused (Teams.delete_team_found f i o).state k
  unfolding Teams.remove_team
  delete_team_found-IsUnused f i none u = u
  delete_team_found-IsUnused f i (some e) u =
      let v = cascade_delete_team-IsUnused k f i u in
      record {
        organization = v.organization;
        team = ground (arith, get-remove (cascade_delete_team f i).teams i k, v.team);
        role = v.role;
        permission = v.permission;
        membership = v.membership;
      }

  pub delete_team-IsUnused :
      (f : Rbac) (p : Option IdPayload) (i : ℕ)
      → IsUnused f k
      → IsUnused (Teams.apply_delete_team f p i).state k
  unfolding Teams.apply_delete_team
  delete_team-IsUnused f none i u = u
  delete_team-IsUnused f (some p) i u = elim (Bool-cases (is_zero p.id)) [
    | inl h ↦ rw h (rejected-IsUnused f u)
    | inr h ↦ rw h (delete_team_found-IsUnused f p.id _ u)
  ]

  delete_role_found-IsUnused :
      (f : Rbac) (i : ℤ) (o : Option RoleEntry)
      → IsUnused f k
      → IsUnused (Roles.delete_role_found f i o).state k
  unfolding Roles.remove_role
  delete_role_found-IsUnused f i none u = u
  delete_role_found-IsUnused f i (some e) u =
      let v = cascade_delete_role-IsUnused k f i u in
      record {
        organization = v.organization;
        team = v.team;
        role = ground (arith, get-remove (cascade_delete_role f i).roles i k, v.role);
        permission = v.permission;
        membership = v.membership;
      }

  pub delete_role-IsUnused :
      (f : Rbac) (p : Option IdPayload) (i : ℕ)
      → IsUnused f k
      → IsUnused (Roles.apply_delete_role f p i).state k
  unfolding Roles.apply_delete_role
  delete_role-IsUnused f none i u = u
  delete_role-IsUnused f (some p) i u = elim (Bool-cases (is_zero p.id)) [
    | inl h ↦ rw h (rejected-IsUnused f u)
    | inr h ↦ rw h (delete_role_found-IsUnused f p.id _ u)
  ]

  delete_permission_found-IsUnused :
      (f : Rbac) (i : ℤ) (o : Option MeasurementPermissionEntry)
      → IsUnused f k
      → IsUnused (Members.delete_permission_found f i o).state k
  delete_permission_found-IsUnused f i none u = u
  delete_permission_found-IsUnused f i (some e) u = record {
    organization = u.organization;
    team = u.team;
    role = u.role;
    permission = ground (arith, get-remove f.measurement_permissions i k, u.permission);
    membership = u.membership;
  }

  pub delete_permission-IsUnused :
      (f : Rbac) (p : Option IdPayload) (i : ℕ)
      → IsUnused f k
      → IsUnused (Members.apply_delete_measurement_permission f p i).state k
  unfolding Members.apply_delete_measurement_permission
  delete_permission-IsUnused f none i u = u
  delete_permission-IsUnused f (some p) i u = elim (Bool-cases (is_zero p.id)) [
    | inl h ↦ rw h (rejected-IsUnused f u)
    | inr h ↦ rw h (delete_permission_found-IsUnused f p.id _ u)
  ]

  remove_membership_found-IsUnused :
      (f : Rbac) (t m : ℤ) (o : Option ℤ)
      → IsUnused f k
      → IsUnused (Members.remove_membership_found f t m o).state k
  remove_membership_found-IsUnused f t m none u = u
  remove_membership_found-IsUnused f t m (some i) u = record {
    organization = u.organization;
    team = u.team;
    role = u.role;
    permission = u.permission;
    membership = ground (arith, get-remove f.token_memberships i k, u.membership);
  }

  pub remove_token_from_team-IsUnused :
      (f : Rbac) (p : Option RemoveTokenFromTeamPayload) (i : ℕ)
      → IsUnused f k
      → IsUnused (Members.apply_remove_token_from_team f p i).state k
  unfolding Members.apply_remove_token_from_team
  remove_token_from_team-IsUnused f none i u = u
  remove_token_from_team-IsUnused f (some p) i u =
      elim (Bool-cases (is_zero p.token_id || is_zero p.team_id)) [
        | inl h ↦ rw h (rejected-IsUnused f u)
        | inr h ↦ rw h (remove_membership_found-IsUnused f p.token_id p.team_id _ u)
      ]
