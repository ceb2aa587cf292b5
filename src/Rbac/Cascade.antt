-- ===== src/Rbac/Cascade.antt =====
-- What a deletion takes with it: cascadeDeleteOrgLocked, cascadeDeleteTeamLocked,
-- cascadeDeleteRoleLocked (internal/cluster/raft/fsm_rbac.go) and the loop over the memberships of
-- a token in applyDeleteToken (internal/cluster/raft/fsm.go). The counts that they return are only
-- logged.
use iot_edge_db.Prelude.{Option, none, some, List, [], ◌∷◌, ℤ}
use iot_edge_db.GoMap.{get, remove, keys, inner, drop, remove_all, values, int_key, str_key}
use iot_edge_db.Types.{TokenMembershipEntry}
use iot_edge_db.Rbac.State.{Rbac}

unfoldable pub cascade_delete_role : Rbac → ℤ → Rbac
cascade_delete_role f role = record f {
  measurement_permissions =
      remove_all f.measurement_permissions (keys (inner f.measurement_perms_by_role role));
  measurement_perms_by_role = remove f.measurement_perms_by_role role;
}

-- The body of the loop over the roles of a team.
unfoldable pub delete_role_of_team : Rbac → ℤ → Rbac
unfolding cascade_delete_role
delete_role_of_team f role =
    let g = cascade_delete_role f role in record g { roles = remove g.roles role }

unfoldable pub delete_roles : Rbac → List ℤ → Rbac
unfolding delete_role_of_team
delete_roles f [] = f
delete_roles f (role ∷ rest) = delete_roles (delete_role_of_team f role) rest

-- The body of the loop over the memberships of a team.
abbrev pub without_team_member : Rbac → ℤ → Option TokenMembershipEntry → Rbac
without_team_member f id none = f
without_team_member f id (some mem) = record f {
  token_memberships_by_pair = drop f.token_memberships_by_pair mem.token_id mem.team_id;
  token_memberships_by_token = drop f.token_memberships_by_token mem.token_id id;
  token_memberships = remove f.token_memberships id;
}

unfoldable pub delete_team_members : Rbac → List ℤ → Rbac
delete_team_members f [] = f
delete_team_members f (id ∷ rest) =
    delete_team_members (without_team_member f id (get f.token_memberships id)) rest

-- The roles of the team, then the memberships.
unfoldable pub cascade_roles_of_team : Rbac → ℤ → Rbac
unfolding delete_roles
cascade_roles_of_team f team =
    let g = delete_roles f (keys (inner f.roles_by_team team)) in
    record g { roles_by_team = remove g.roles_by_team team }

unfoldable pub cascade_members_of_team : Rbac → ℤ → Rbac
unfolding delete_team_members
cascade_members_of_team f team =
    let g = delete_team_members f (keys (inner f.token_memberships_by_team team)) in
    record g { token_memberships_by_team = remove g.token_memberships_by_team team }

unfoldable pub cascade_delete_team : Rbac → ℤ → Rbac
unfolding cascade_roles_of_team cascade_members_of_team
cascade_delete_team f team = cascade_members_of_team (cascade_roles_of_team f team) team

-- The body of the loop over the teams of an organization.
unfoldable pub delete_team_of_org : Rbac → ℤ → Rbac
unfolding cascade_delete_team
delete_team_of_org f team =
    let g = cascade_delete_team f team in record g { teams = remove g.teams team }

unfoldable pub delete_teams : Rbac → List ℤ → Rbac
unfolding delete_team_of_org
delete_teams f [] = f
delete_teams f (team ∷ rest) = delete_teams (delete_team_of_org f team) rest

unfoldable pub cascade_delete_org : Rbac → ℤ → Rbac
unfolding delete_teams
cascade_delete_org f org = delete_teams f (values (inner f.teams_by_org org))

-- The body of the loop over the memberships of a token.
abbrev pub without_token_member : Rbac → ℤ → Option TokenMembershipEntry → Rbac
without_token_member f id none = f
without_token_member f id (some mem) = record f {
  token_memberships_by_pair = drop f.token_memberships_by_pair mem.token_id mem.team_id;
  token_memberships_by_team = drop f.token_memberships_by_team mem.team_id id;
  token_memberships = remove f.token_memberships id;
}

unfoldable pub delete_token_members : Rbac → List ℤ → Rbac
delete_token_members f [] = f
delete_token_members f (id ∷ rest) =
    delete_token_members (without_token_member f id (get f.token_memberships id)) rest

unfoldable pub cascade_members_of_token : Rbac → ℤ → Rbac
unfolding delete_token_members
cascade_members_of_token f token =
    let g = delete_token_members f (keys (inner f.token_memberships_by_token token)) in
    record g { token_memberships_by_token = remove g.token_memberships_by_token token }
