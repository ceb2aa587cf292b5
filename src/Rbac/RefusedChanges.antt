-- ===== src/Rbac/RefusedChanges.antt =====
-- Refused updates and deletions (internal/cluster/raft/fsm_rbac.go).
use iot_edge_db.Prelude.{refl, ◌||◌, Option, none, some, ℕ, ℤ, is_zero, Bool-cases, inl, inr}
use iot_edge_db.GoMap.{int_key, str_key}
use iot_edge_db.Types.{
  OrganizationEntry, TeamEntry, RoleEntry, MeasurementPermissionEntry, UpdateNamedPayload,
  UpdateRolePayload, RemoveTokenFromTeamPayload, IdPayload, Error,
}
use iot_edge_db.Rbac.State.{Rbac}
use iot_edge_db.Rbac.Staging.{Staged}
use iot_edge_db.Rbac.Organizations
use iot_edge_db.Rbac.Teams
use iot_edge_db.Rbac.Roles
use iot_edge_db.Rbac.Members
use iot_edge_db.Rbac.Refused.{IsAllOrNothing, accepted, ignored, counted}

module _ (f : Rbac) where
  commit_organization-IsAllOrNothing :
      (p : UpdateNamedPayload) (i : ℕ) (e : OrganizationEntry) (s : Option Staged)
      → IsAllOrNothing f (Organizations.commit_organization f p i e s)
  commit_organization-IsAllOrNothing p i e none = counted refl
  commit_organization-IsAllOrNothing p i e (some s) = accepted refl

  update_organization_found-IsAllOrNothing :
      (p : UpdateNamedPayload) (i : ℕ) (o : Option OrganizationEntry)
      → IsAllOrNothing f (Organizations.update_organization_found f p i o)
  update_organization_found-IsAllOrNothing p i none = counted refl
  update_organization_found-IsAllOrNothing p i (some e) = commit_organization-IsAllOrNothing p i e _

  update_organization_checked-IsAllOrNothing :
      (p : UpdateNamedPayload) (i : ℕ) (v : Option Error)
      → IsAllOrNothing f (Organizations.update_organization_checked f p i v)
  update_organization_checked-IsAllOrNothing p i (some x) = counted refl
  update_organization_checked-IsAllOrNothing p i none =
      update_organization_found-IsAllOrNothing p i _

  pub update_organization-IsAllOrNothing :
      (p : Option UpdateNamedPayload) (i : ℕ)
      → IsAllOrNothing f (Organizations.apply_update_organization f p i)
  unfolding Organizations.apply_update_organization
  update_organization-IsAllOrNothing none i = ignored refl
  update_organization-IsAllOrNothing (some p) i = elim (Bool-cases (is_zero p.id)) [
    | inl h ↦ rw h (counted refl)
    | inr h ↦ rw h (update_organization_checked-IsAllOrNothing p i _)
  ]

  commit_team-IsAllOrNothing :
      (p : UpdateNamedPayload) (i : ℕ) (e : TeamEntry) (s : Option Staged)
      → IsAllOrNothing f (Teams.commit_team f p i e s)
  commit_team-IsAllOrNothing p i e none = counted refl
  commit_team-IsAllOrNothing p i e (some s) = accepted refl

  update_team_found-IsAllOrNothing :
      (p : UpdateNamedPayload) (i : ℕ) (o : Option TeamEntry)
      → IsAllOrNothing f (Teams.update_team_found f p i o)
  update_team_found-IsAllOrNothing p i none = counted refl
  update_team_found-IsAllOrNothing p i (some e) = commit_team-IsAllOrNothing p i e _

  update_team_checked-IsAllOrNothing :
      (p : UpdateNamedPayload) (i : ℕ) (v : Option Error)
      → IsAllOrNothing f (Teams.update_team_checked f p i v)
  update_team_checked-IsAllOrNothing p i (some x) = counted refl
  update_team_checked-IsAllOrNothing p i none = update_team_found-IsAllOrNothing p i _

  pub update_team-IsAllOrNothing :
      (p : Option UpdateNamedPayload) (i : ℕ) → IsAllOrNothing f (Teams.apply_update_team f p i)
  unfolding Teams.apply_update_team
  update_team-IsAllOrNothing none i = ignored refl
  update_team-IsAllOrNothing (some p) i = elim (Bool-cases (is_zero p.id)) [
    | inl h ↦ rw h (counted refl)
    | inr h ↦ rw h (update_team_checked-IsAllOrNothing p i _)
  ]

  update_role_found-IsAllOrNothing :
      (p : UpdateRolePayload) (i : ℕ) (o : Option RoleEntry)
      → IsAllOrNothing f (Roles.update_role_found f p i o)
  update_role_found-IsAllOrNothing p i none = counted refl
  update_role_found-IsAllOrNothing p i (some e) = accepted refl

  update_role_checked-IsAllOrNothing :
      (p : UpdateRolePayload) (i : ℕ) (v : Option Error)
      → IsAllOrNothing f (Roles.update_role_checked f p i v)
  update_role_checked-IsAllOrNothing p i (some x) = counted refl
  update_role_checked-IsAllOrNothing p i none = update_role_found-IsAllOrNothing p i _

  pub update_role-IsAllOrNothing :
      (p : Option UpdateRolePayload) (i : ℕ) → IsAllOrNothing f (Roles.apply_update_role f p i)
  unfolding Roles.apply_update_role
  update_role-IsAllOrNothing none i = ignored refl
  update_role-IsAllOrNothing (some p) i = elim (Bool-cases (is_zero p.id)) [
    | inl h ↦ rw h (counted refl)
    | inr h ↦ rw h (update_role_checked-IsAllOrNothing p i _)
  ]

  delete_organization_found-IsAllOrNothing :
      (i : ℤ) (o : Option OrganizationEntry)
      → IsAllOrNothing f (Organizations.delete_organization_found f i o)
  delete_organization_found-IsAllOrNothing i none = accepted refl
  delete_organization_found-IsAllOrNothing i (some e) = accepted refl

  pub delete_organization-IsAllOrNothing :
      (p : Option IdPayload) (i : ℕ)
      → IsAllOrNothing f (Organizations.apply_delete_organization f p i)
  unfolding Organizations.apply_delete_organization
  delete_organization-IsAllOrNothing none i = ignored refl
  delete_organization-IsAllOrNothing (some p) i = elim (Bool-cases (is_zero p.id)) [
    | inl h ↦ rw h (counted refl)
    | inr h ↦ rw h (delete_organization_found-IsAllOrNothing p.id _)
  ]

  delete_team_found-IsAllOrNothing :
      (i : ℤ) (o : Option TeamEntry) → IsAllOrNothing f (Teams.delete_team_found f i o)
  delete_team_found-IsAllOrNothing i none = accepted refl
  delete_team_found-IsAllOrNothing i (some e) = accepted refl

  pub delete_team-IsAllOrNothing :
      (p : Option IdPayload) (i : ℕ) → IsAllOrNothing f (Teams.apply_delete_team f p i)
  unfolding Teams.apply_delete_team
  delete_team-IsAllOrNothing none i = ignored refl
  delete_team-IsAllOrNothing (some p) i = elim (Bool-cases (is_zero p.id)) [
    | inl h ↦ rw h (counted refl)
    | inr h ↦ rw h (delete_team_found-IsAllOrNothing p.id _)
  ]

  delete_role_found-IsAllOrNothing :
      (i : ℤ) (o : Option RoleEntry) → IsAllOrNothing f (Roles.delete_role_found f i o)
  delete_role_found-IsAllOrNothing i none = accepted refl
  delete_role_found-IsAllOrNothing i (some e) = accepted refl

  pub delete_role-IsAllOrNothing :
      (p : Option IdPayload) (i : ℕ) → IsAllOrNothing f (Roles.apply_delete_role f p i)
  unfolding Roles.apply_delete_role
  delete_role-IsAllOrNothing none i = ignored refl
  delete_role-IsAllOrNothing (some p) i = elim (Bool-cases (is_zero p.id)) [
    | inl h ↦ rw h (counted refl)
    | inr h ↦ rw h (delete_role_found-IsAllOrNothing p.id _)
  ]

  delete_permission_found-IsAllOrNothing :
      (i : ℤ) (o : Option MeasurementPermissionEntry)
      → IsAllOrNothing f (Members.delete_permission_found f i o)
  delete_permission_found-IsAllOrNothing i none = accepted refl
  delete_permission_found-IsAllOrNothing i (some e) = accepted refl

  pub delete_permission-IsAllOrNothing :
      (p : Option IdPayload) (i : ℕ)
      → IsAllOrNothing f (Members.apply_delete_measurement_permission f p i)
  unfolding Members.apply_delete_measurement_permission
  delete_permission-IsAllOrNothing none i = ignored refl
  delete_permission-IsAllOrNothing (some p) i = elim (Bool-cases (is_zero p.id)) [
    | inl h ↦ rw h (counted refl)
    | inr h ↦ rw h (delete_permission_found-IsAllOrNothing p.id _)
  ]

  remove_membership_found-IsAllOrNothing :
      (t m : ℤ) (o : Option ℤ) → IsAllOrNothing f (Members.remove_membership_found f t m o)
  remove_membership_found-IsAllOrNothing t m none = accepted refl
  remove_membership_found-IsAllOrNothing t m (some i) = accepted refl

  pub remove_token_from_team-IsAllOrNothing :
      (p : Option RemoveTokenFromTeamPayload) (i : ℕ)
      → IsAllOrNothing f (Members.apply_remove_token_from_team f p i)
  unfolding Members.apply_remove_token_from_team
  remove_token_from_team-IsAllOrNothing none i = ignored refl
  remove_token_from_team-IsAllOrNothing (some p) i =
      elim (Bool-cases (is_zero p.token_id || is_zero p.team_id)) [
        | inl h ↦ rw h (counted refl)
        | inr h ↦ rw h (remove_membership_found-IsAllOrNothing p.token_id p.team_id _)
      ]
