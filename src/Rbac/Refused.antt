-- ===== src/Rbac/Refused.antt =====
-- Refused creations (internal/cluster/raft/fsm_rbac.go), and what it is for a refusal to change nothing.
use iot_edge_db.Prelude.{
  ◌≡◌, refl, Option, none, some, is_some, ℕ, ℤ, is_zero, Bool-cases, inl, inr,
}
use iot_edge_db.GoMap.{Map, get, int_key, str_key}
use iot_edge_db.Types.{
  Outcome, TokenEntry, OrganizationEntry, TeamEntry, RoleEntry, MeasurementPermissionEntry,
  TokenMembershipEntry, CreateOrganizationPayload, CreateTeamPayload, CreateRolePayload,
  CreateMeasurementPermissionPayload, AddTokenToTeamPayload, Error,
}
use iot_edge_db.Rbac.State.{Rbac, inc_rejected_rbac}
use iot_edge_db.Rbac.Organizations
use iot_edge_db.Rbac.Teams
use iot_edge_db.Rbac.Roles
use iot_edge_db.Rbac.Members

-- Without an error, or with the state as it was but for the counter of refusals.
pub data IsAllOrNothing (f : Rbac) (r : Outcome Rbac) : Type 0 where
  accepted : r.error ≡ none → IsAllOrNothing f r
  ignored : r.state ≡ f → IsAllOrNothing f r
  counted : r.state ≡ inc_rejected_rbac f → IsAllOrNothing f r

module _ (f : Rbac) where
  insert_organization-IsAllOrNothing :
      (e : OrganizationEntry) (o : Option ℤ)
      → IsAllOrNothing f (Organizations.insert_organization f e o)
  insert_organization-IsAllOrNothing e (some x) = counted refl
  insert_organization-IsAllOrNothing e none = accepted refl

  created_organization-IsAllOrNothing :
      (m : OrganizationEntry) (i : ℕ) (v : Option Error)
      → IsAllOrNothing f (Organizations.create_validated f m i v)
  created_organization-IsAllOrNothing m i (some x) = counted refl
  created_organization-IsAllOrNothing m i none =
      elim (Bool-cases (is_zero m.created_at_unix_nano)) [
        | inl h ↦ rw h (counted refl)
        | inr h ↦
            rw h (insert_organization-IsAllOrNothing (Organizations.stamped_organization m i) _)
      ]

  pub create_organization-IsAllOrNothing :
      (p : Option CreateOrganizationPayload) (i : ℕ)
      → IsAllOrNothing f (Organizations.apply_create_organization f p i)
  unfolding Organizations.apply_create_organization
  create_organization-IsAllOrNothing none i = ignored refl
  create_organization-IsAllOrNothing (some p) i =
      created_organization-IsAllOrNothing p.organization i _

  insert_team-IsAllOrNothing :
      (e : TeamEntry) (o : Option ℤ) → IsAllOrNothing f (Teams.insert_team f e o)
  insert_team-IsAllOrNothing e (some x) = counted refl
  insert_team-IsAllOrNothing e none = accepted refl

  created_team-IsAllOrNothing :
      (m : TeamEntry) (i : ℕ) (v : Option Error) → IsAllOrNothing f (Teams.create_validated f m i v)
  created_team-IsAllOrNothing m i (some x) = counted refl
  created_team-IsAllOrNothing m i none = elim (Bool-cases (is_zero m.created_at_unix_nano)) [
    | inl h ↦ rw h (counted refl)
    | inr h ↦ elim (Bool-cases (is_some (get f.organizations m.organization_id))) [
      | inr a ↦ rw (h, a) (counted refl)
      | inl a ↦ rw (h, a) (insert_team-IsAllOrNothing (Teams.stamped_team m i) _)
    ]
  ]

  pub create_team-IsAllOrNothing :
      (p : Option CreateTeamPayload) (i : ℕ) → IsAllOrNothing f (Teams.apply_create_team f p i)
  unfolding Teams.apply_create_team
  create_team-IsAllOrNothing none i = ignored refl
  create_team-IsAllOrNothing (some p) i = created_team-IsAllOrNothing p.team i _

  created_role-IsAllOrNothing :
      (m : RoleEntry) (i : ℕ) (v : Option Error) → IsAllOrNothing f (Roles.create_validated f m i v)
  created_role-IsAllOrNothing m i (some x) = counted refl
  created_role-IsAllOrNothing m i none = elim (Bool-cases (is_zero m.created_at_unix_nano)) [
    | inl h ↦ rw h (counted refl)
    | inr h ↦ elim (Bool-cases (is_some (get f.teams m.team_id))) [
      | inr a ↦ rw (h, a) (counted refl)
      | inl a ↦ rw (h, a) (accepted refl)
    ]
  ]

  pub create_role-IsAllOrNothing :
      (p : Option CreateRolePayload) (i : ℕ) → IsAllOrNothing f (Roles.apply_create_role f p i)
  unfolding Roles.apply_create_role
  create_role-IsAllOrNothing none i = ignored refl
  create_role-IsAllOrNothing (some p) i = created_role-IsAllOrNothing p.role i _

  created_permission-IsAllOrNothing :
      (m : MeasurementPermissionEntry) (i : ℕ) (v : Option Error)
      → IsAllOrNothing f (Members.create_validated f m i v)
  created_permission-IsAllOrNothing m i (some x) = counted refl
  created_permission-IsAllOrNothing m i none = elim (Bool-cases (is_zero m.created_at_unix_nano)) [
    | inl h ↦ rw h (counted refl)
    | inr h ↦ elim (Bool-cases (is_some (get f.roles m.role_id))) [
      | inr a ↦ rw (h, a) (counted refl)
      | inl a ↦ rw (h, a) (accepted refl)
    ]
  ]

  pub create_permission-IsAllOrNothing :
      (p : Option CreateMeasurementPermissionPayload) (i : ℕ)
      → IsAllOrNothing f (Members.apply_create_measurement_permission f p i)
  unfolding Members.apply_create_measurement_permission
  create_permission-IsAllOrNothing none i = ignored refl
  create_permission-IsAllOrNothing (some p) i =
      created_permission-IsAllOrNothing p.measurement_permission i _

  insert_membership-IsAllOrNothing :
      (e : TokenMembershipEntry) (o : Option ℤ) → IsAllOrNothing f (Members.insert_membership f e o)
  insert_membership-IsAllOrNothing e (some x) = counted refl
  insert_membership-IsAllOrNothing e none = accepted refl

  created_membership-IsAllOrNothing :
      (tokens : Map ℤ TokenEntry) (m : TokenMembershipEntry) (i : ℕ) (v : Option Error)
      → IsAllOrNothing f (Members.add_validated tokens f m i v)
  created_membership-IsAllOrNothing tokens m i (some x) = counted refl
  created_membership-IsAllOrNothing tokens m i none =
      elim (Bool-cases (is_zero m.created_at_unix_nano)) [
        | inl h ↦ rw h (counted refl)
        | inr h ↦ elim (Bool-cases (is_some (get tokens m.token_id))) [
          | inr a ↦ rw (h, a) (counted refl)
          | inl a ↦ elim (Bool-cases (is_some (get f.teams m.team_id))) [
            | inr b ↦ rw (h, a, b) (counted refl)
            | inl b ↦
                rw (h, a, b) (insert_membership-IsAllOrNothing (Members.stamped_membership m i) _)
          ]
        ]
      ]

  pub add_token_to_team-IsAllOrNothing :
      (tokens : Map ℤ TokenEntry) (p : Option AddTokenToTeamPayload) (i : ℕ)
      → IsAllOrNothing f (Members.apply_add_token_to_team tokens f p i)
  unfolding Members.apply_add_token_to_team
  add_token_to_team-IsAllOrNothing tokens none i = ignored refl
  add_token_to_team-IsAllOrNothing tokens (some p) i =
      created_membership-IsAllOrNothing tokens p.membership i _
