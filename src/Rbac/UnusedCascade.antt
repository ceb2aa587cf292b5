-- ===== src/Rbac/UnusedCascade.antt =====
-- Which ids the cascades of internal/cluster/raft/fsm_rbac.go, and that of applyDeleteToken in
-- internal/cluster/raft/fsm.go, use.
use iot_edge_db.Prelude.{List, [], ◌∷◌, Option, none, some, arith, ℤ}
use iot_edge_db.GoMap.{get-remove_all, keys, inner, get, remove, get-remove, int_key, str_key}
use iot_edge_db.Types.{TokenMembershipEntry}
use iot_edge_db.Rbac.State.{Rbac}
use iot_edge_db.Rbac.Cascade.{
  cascade_delete_role, delete_role_of_team, delete_roles, without_team_member, delete_team_members,
  cascade_roles_of_team, cascade_members_of_team, cascade_delete_team, delete_team_of_org,
  delete_teams, without_token_member, delete_token_members, cascade_members_of_token,
}
use iot_edge_db.Rbac.Unused.{IsUnused}

module _ (k : ℤ) where
  pub cascade_delete_role-IsUnused :
      (f : Rbac) (r : ℤ) → IsUnused f k → IsUnused (cascade_delete_role f r) k
  unfolding cascade_delete_role
  cascade_delete_role-IsUnused f r u = record {
    organization = u.organization;
    team = u.team;
    role = u.role;
    permission = ground (
      arith,
      get-remove_all f.measurement_permissions (keys (inner f.measurement_perms_by_role r)) k,
      u.permission,
    );
    membership = u.membership;
  }

  role_removed-IsUnused :
      (f : Rbac) (r : ℤ) → IsUnused f k → IsUnused (record f { roles = remove f.roles r }) k
  role_removed-IsUnused f r u = record {
    organization = u.organization;
    team = u.team;
    role = ground (arith, get-remove f.roles r k, u.role);
    permission = u.permission;
    membership = u.membership;
  }

  delete_roles-IsUnused : (f : Rbac) (ids : List ℤ) → IsUnused f k → IsUnused (delete_roles f ids) k
  unfolding delete_roles
  delete_roles-IsUnused f [] u = u
  delete_roles-IsUnused f (r ∷ ids) u =
      delete_roles-IsUnused (delete_role_of_team f r) ids
        (role_removed-IsUnused (cascade_delete_role f r) r (cascade_delete_role-IsUnused f r u))

  without_team_member-IsUnused :
      (f : Rbac) (i : ℤ) (o : Option TokenMembershipEntry)
      → IsUnused f k
      → IsUnused (without_team_member f i o) k
  without_team_member-IsUnused f i none u = u
  without_team_member-IsUnused f i (some m) u = record {
    organization = u.organization;
    team = u.team;
    role = u.role;
    permission = u.permission;
    membership = ground (arith, get-remove f.token_memberships i k, u.membership);
  }

  delete_team_members-IsUnused :
      (f : Rbac) (ids : List ℤ) → IsUnused f k → IsUnused (delete_team_members f ids) k
  unfolding delete_team_members
  delete_team_members-IsUnused f [] u = u
  delete_team_members-IsUnused f (i ∷ ids) u =
      delete_team_members-IsUnused (without_team_member f i (get f.token_memberships i)) ids
        (without_team_member-IsUnused f i _ u)

  without_token_member-IsUnused :
      (f : Rbac) (i : ℤ) (o : Option TokenMembershipEntry)
      → IsUnused f k
      → IsUnused (without_token_member f i o) k
  without_token_member-IsUnused f i none u = u
  without_token_member-IsUnused f i (some m) u = record {
    organization = u.organization;
    team = u.team;
    role = u.role;
    permission = u.permission;
    membership = ground (arith, get-remove f.token_memberships i k, u.membership);
  }

  delete_token_members-IsUnused :
      (f : Rbac) (ids : List ℤ) → IsUnused f k → IsUnused (delete_token_members f ids) k
  unfolding delete_token_members
  delete_token_members-IsUnused f [] u = u
  delete_token_members-IsUnused f (i ∷ ids) u =
      delete_token_members-IsUnused (without_token_member f i (get f.token_memberships i)) ids
        (without_token_member-IsUnused f i _ u)

  cascade_roles_of_team-IsUnused :
      (f : Rbac) (t : ℤ) → IsUnused f k → IsUnused (cascade_roles_of_team f t) k
  unfolding cascade_roles_of_team
  cascade_roles_of_team-IsUnused f t u =
      let v = delete_roles-IsUnused f (keys (inner f.roles_by_team t)) u in
      record {
        organization = v.organization;
        team = v.team;
        role = v.role;
        permission = v.permission;
        membership = v.membership;
      }

  cascade_members_of_team-IsUnused :
      (f : Rbac) (t : ℤ) → IsUnused f k → IsUnused (cascade_members_of_team f t) k
  unfolding cascade_members_of_team
  cascade_members_of_team-IsUnused f t u =
      let v = delete_team_members-IsUnused f (keys (inner f.token_memberships_by_team t)) u in
      record {
        organization = v.organization;
        team = v.team;
        role = v.role;
        permission = v.permission;
        membership = v.membership;
      }

  pub cascade_members_of_token-IsUnused :
      (f : Rbac) (t : ℤ) → IsUnused f k → IsUnused (cascade_members_of_token f t) k
  unfolding cascade_members_of_token
  cascade_members_of_token-IsUnused f t u =
      let v = delete_token_members-IsUnused f (keys (inner f.token_memberships_by_token t)) u in
      record {
        organization = v.organization;
        team = v.team;
        role = v.role;
        permission = v.permission;
        membership = v.membership;
      }

  pub cascade_delete_team-IsUnused :
      (f : Rbac) (t : ℤ) → IsUnused f k → IsUnused (cascade_delete_team f t) k
  unfolding cascade_delete_team
  cascade_delete_team-IsUnused f t u =
      cascade_members_of_team-IsUnused (cascade_roles_of_team f t) t
        (cascade_roles_of_team-IsUnused f t u)

  team_removed-IsUnused :
      (f : Rbac) (t : ℤ) → IsUnused f k → IsUnused (record f { teams = remove f.teams t }) k
  team_removed-IsUnused f t u = record {
    organization = u.organization;
    team = ground (arith, get-remove f.teams t k, u.team);
    role = u.role;
    permission = u.permission;
    membership = u.membership;
  }

  pub delete_teams-IsUnused :
      (f : Rbac) (ids : List ℤ) → IsUnused f k → IsUnused (delete_teams f ids) k
  unfolding delete_teams
  delete_teams-IsUnused f [] u = u
  delete_teams-IsUnused f (t ∷ ids) u =
      delete_teams-IsUnused (delete_team_of_org f t) ids
        (team_removed-IsUnused (cascade_delete_team f t) t (cascade_delete_team-IsUnused f t u))
