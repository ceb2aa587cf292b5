-- ===== src/Rbac/Unused.antt =====
-- Which ids the creations of internal/cluster/raft/fsm_rbac.go use.
use iot_edge_db.Prelude.{
  ◌≡◌, refl, ◌≢◌, Option, none, some, arith, is_some, ℕ, ℤ, int64, is_zero, Bool-cases, inl, inr,
}
use iot_edge_db.GoMap.{Map, get, put, get-put, int_key, str_key}
use iot_edge_db.Types.{
  TokenEntry, OrganizationEntry, TeamEntry, RoleEntry, MeasurementPermissionEntry,
  TokenMembershipEntry, CreateOrganizationPayload, CreateTeamPayload, CreateRolePayload,
  CreateMeasurementPermissionPayload, AddTokenToTeamPayload, Error,
}
use iot_edge_db.Rbac.State.{Rbac, inc_rejected_rbac}
use iot_edge_db.Rbac.Organizations
use iot_edge_db.Rbac.Teams
use iot_edge_db.Rbac.Roles
use iot_edge_db.Rbac.Members

-- No row of the RBAC tables has this id.
pub record IsUnused (f : Rbac) (k : ℤ) : Type 0 where
  pub organization : get f.organizations k ≡ none
  pub team : get f.teams k ≡ none
  pub role : get f.roles k ≡ none
  pub permission : get f.measurement_permissions k ≡ none
  pub membership : get f.token_memberships k ≡ none

-- Assigning to a key that is there uses no other key.
pub get-put_unused :
    {V : Type 0} (m : Map ℤ V) (i k : ℤ) (old v : V)
    → get m i ≡ some old
    → get m k ≡ none
    → get (put m i v) k ≡ none
get-put_unused m i k old v h u = ground (arith, get-put m i v k)

module _ (f : Rbac) (k : ℤ) (u : IsUnused f k) where
  pub rejected-IsUnused : IsUnused (inc_rejected_rbac f) k
  rejected-IsUnused = record {
    organization = u.organization;
    team = u.team;
    role = u.role;
    permission = u.permission;
    membership = u.membership;
  }

  module _ (i : ℕ) (ne : int64 i ≢ k) where
    insert_organization-IsUnused :
        (e : OrganizationEntry) (o : Option ℤ)
        → e.id ≡ int64 i
        → IsUnused (Organizations.insert_organization f e o).state k
    insert_organization-IsUnused e (some x) h = rejected-IsUnused
    insert_organization-IsUnused e none h = record {
      organization = ground (arith, get-put f.organizations e.id e k, u.organization);
      team = u.team;
      role = u.role;
      permission = u.permission;
      membership = u.membership;
    }

    created_organization-IsUnused :
        (m : OrganizationEntry) (v : Option Error)
        → IsUnused (Organizations.create_validated f m i v).state k
    created_organization-IsUnused m (some x) = rejected-IsUnused
    created_organization-IsUnused m none = elim (Bool-cases (is_zero m.created_at_unix_nano)) [
      | inl h ↦ rw h rejected-IsUnused
      | inr h ↦ rw h (insert_organization-IsUnused (Organizations.stamped_organization m i) _ refl)
    ]

    pub create_organization-IsUnused :
        (p : Option CreateOrganizationPayload)
        → IsUnused (Organizations.apply_create_organization f p i).state k
    unfolding Organizations.apply_create_organization
    create_organization-IsUnused none = u
    create_organization-IsUnused (some p) = created_organization-IsUnused p.organization _

    insert_team-IsUnused :
        (e : TeamEntry) (o : Option ℤ) → e.id ≡ int64 i → IsUnused (Teams.insert_team f e o).state k
    insert_team-IsUnused e (some x) h = rejected-IsUnused
    insert_team-IsUnused e none h = record {
      organization = u.organization;
      team = ground (arith, get-put f.teams e.id e k, u.team);
      role = u.role;
      permission = u.permission;
      membership = u.membership;
    }

    created_team-IsUnused :
        (m : TeamEntry) (v : Option Error) → IsUnused (Teams.create_validated f m i v).state k
    created_team-IsUnused m (some x) = rejected-IsUnused
    created_team-IsUnused m none = elim (Bool-cases (is_zero m.created_at_unix_nano)) [
      | inl h ↦ rw h rejected-IsUnused
      | inr h ↦ elim (Bool-cases (is_some (get f.organizations m.organization_id))) [
        | inr a ↦ rw (h, a) rejected-IsUnused
        | inl a ↦ rw (h, a) (insert_team-IsUnused (Teams.stamped_team m i) _ refl)
      ]
    ]

    pub create_team-IsUnused :
        (p : Option CreateTeamPayload) → IsUnused (Teams.apply_create_team f p i).state k
    unfolding Teams.apply_create_team
    create_team-IsUnused none = u
    create_team-IsUnused (some p) = created_team-IsUnused p.team _

    insert_role-IsUnused :
        (e : RoleEntry) → e.id ≡ int64 i → IsUnused (Roles.insert_role f e).state k
    insert_role-IsUnused e h = record {
      organization = u.organization;
      team = u.team;
      role = ground (arith, get-put f.roles e.id e k, u.role);
      permission = u.permission;
      membership = u.membership;
    }

    created_role-IsUnused :
        (m : RoleEntry) (v : Option Error) → IsUnused (Roles.create_validated f m i v).state k
    created_role-IsUnused m (some x) = rejected-IsUnused
    created_role-IsUnused m none = elim (Bool-cases (is_zero m.created_at_unix_nano)) [
      | inl h ↦ rw h rejected-IsUnused
      | inr h ↦ elim (Bool-cases (is_some (get f.teams m.team_id))) [
        | inr a ↦ rw (h, a) rejected-IsUnused
        | inl a ↦ rw (h, a) (insert_role-IsUnused (Roles.stamped_role m i) refl)
      ]
    ]

    pub create_role-IsUnused :
        (p : Option CreateRolePayload) → IsUnused (Roles.apply_create_role f p i).state k
    unfolding Roles.apply_create_role
    create_role-IsUnused none = u
    create_role-IsUnused (some p) = created_role-IsUnused p.role _

    insert_permission-IsUnused :
        (e : MeasurementPermissionEntry)
        → e.id ≡ int64 i
        → IsUnused (Members.insert_permission f e).state k
    insert_permission-IsUnused e h = record {
      organization = u.organization;
      team = u.team;
      role = u.role;
      permission = ground (arith, get-put f.measurement_permissions e.id e k, u.permission);
      membership = u.membership;
    }

    created_permission-IsUnused :
        (m : MeasurementPermissionEntry) (v : Option Error)
        → IsUnused (Members.create_validated f m i v).state k
    created_permission-IsUnused m (some x) = rejected-IsUnused
    created_permission-IsUnused m none = elim (Bool-cases (is_zero m.created_at_unix_nano)) [
      | inl h ↦ rw h rejected-IsUnused
      | inr h ↦ elim (Bool-cases (is_some (get f.roles m.role_id))) [
        | inr a ↦ rw (h, a) rejected-IsUnused
        | inl a ↦ rw (h, a) (insert_permission-IsUnused (Members.stamped_permission m i) refl)
      ]
    ]

    pub create_permission-IsUnused :
        (p : Option CreateMeasurementPermissionPayload)
        → IsUnused (Members.apply_create_measurement_permission f p i).state k
    unfolding Members.apply_create_measurement_permission
    create_permission-IsUnused none = u
    create_permission-IsUnused (some p) = created_permission-IsUnused p.measurement_permission _

    insert_membership-IsUnused :
        (e : TokenMembershipEntry) (o : Option ℤ)
        → e.id ≡ int64 i
        → IsUnused (Members.insert_membership f e o).state k
    insert_membership-IsUnused e (some x) h = rejected-IsUnused
    insert_membership-IsUnused e none h = record {
      organization = u.organization;
      team = u.team;
      role = u.role;
      permission = u.permission;
      membership = ground (arith, get-put f.token_memberships e.id e k, u.membership);
    }

    created_membership-IsUnused :
        (tokens : Map ℤ TokenEntry) (m : TokenMembershipEntry) (v : Option Error)
        → IsUnused (Members.add_validated tokens f m i v).state k
    created_membership-IsUnused tokens m (some x) = rejected-IsUnused
    created_membership-IsUnused tokens m none = elim (Bool-cases (is_zero m.created_at_unix_nano)) [
      | inl h ↦ rw h rejected-IsUnused
      | inr h ↦ elim (Bool-cases (is_some (get tokens m.token_id))) [
        | inr a ↦ rw (h, a) rejected-IsUnused
        | inl a ↦ elim (Bool-cases (is_some (get f.teams m.team_id))) [
          | inr b ↦ rw (h, a, b) rejected-IsUnused
          | inl b ↦
              rw (h, a, b) (insert_membership-IsUnused (Members.stamped_membership m i) _ refl)
        ]
      ]
    ]

    pub add_token_to_team-IsUnused :
        (tokens : Map ℤ TokenEntry) (p : Option AddTokenToTeamPayload)
        → IsUnused (Members.apply_add_token_to_team tokens f p i).state k
    unfolding Members.apply_add_token_to_team
    add_token_to_team-IsUnused tokens none = u
    add_token_to_team-IsUnused tokens (some p) = created_membership-IsUnused tokens p.membership _
