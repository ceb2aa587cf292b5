-- ===== src/Rbac/Below.antt =====
-- The cascades from a role and from a team (internal/cluster/raft/fsm_rbac.go), and the invariant of the
-- tables below the teams.
use iot_edge_db.Prelude.{
  ◌≡◌, refl, ap, ◌∙◌, sym, subst, none, List, [], ◌∷◌, arith, ℤ, int_dec, elem, if◌then◌else◌,
}
use iot_edge_db.GoMap.{
  Map, Index, get, remove, keys, inner, remove_all, get-remove, at-remove, get-remove_all,
  elem-keys-inner, int_key,
}
use iot_edge_db.Types.{TokenEntry, TeamEntry, RoleEntry, MeasurementPermissionEntry}
use iot_edge_db.Rbac.State.{Rbac}
use iot_edge_db.Rbac.Cascade.{
  delete_role_of_team, delete_roles, delete_team_members, cascade_roles_of_team,
  cascade_members_of_team, cascade_delete_team, delete_team_of_org,
}
use iot_edge_db.Rbac.MemberLoops.{
  get-delete_team_members, delete_team_members-indexed, delete_team_members_lem,
}
use iot_edge_db.Rbac.Tables.{RolesOk, PermsOk, MembersOk, IsConsistentBelow}

-- Once a role's permissions are gone, the role itself can go.
pub PermsOk-cascade :
    (roles : Map ℤ RoleEntry) (perms : Map ℤ MeasurementPermissionEntry) (by_role : Index ℤ ℤ Unit)
    (r : ℤ)
    → PermsOk roles perms by_role
    → PermsOk (remove roles r) (remove_all perms (keys (inner by_role r))) (remove by_role r)
PermsOk-cascade roles perms by_role r c = record {
  indexed = λ s id. ground (
    arith,
    at-remove by_role r s id,
    get-remove_all perms (keys (inner by_role r)) id,
    elem-keys-inner by_role r id,
    c.indexed s id,
    c.indexed r id,
  );
  parent = λ id e h. ground (
    arith,
    get-remove_all perms (keys (inner by_role r)) id,
    elem-keys-inner by_role r id,
    get-remove roles r e.role_id,
    c.indexed r id,
    c.parent id e,
  );
}

delete_roles_lem :
    (f : Rbac) (ids : List ℤ)
    → delete_roles f ids ≡ record f {
      roles = (delete_roles f ids).roles;
      measurement_permissions = (delete_roles f ids).measurement_permissions;
      measurement_perms_by_role = (delete_roles f ids).measurement_perms_by_role;
    }
unfolding delete_roles
delete_roles_lem f [] = refl
delete_roles_lem f (r ∷ ids) = delete_roles_lem (delete_role_of_team f r) ids

get-delete_roles :
    (f : Rbac) (ids : List ℤ) (x : ℤ)
    → get (delete_roles f ids).roles x ≡ (if elem int_dec x ids then none else get f.roles x)
unfolding delete_roles elem
get-delete_roles f [] x = refl
get-delete_roles f (r ∷ ids) x =
    ground (arith, get-delete_roles (delete_role_of_team f r) ids x, get-remove f.roles r x)

delete_roles-PermsOk :
    (f : Rbac) (ids : List ℤ)
    → PermsOk f.roles f.measurement_permissions f.measurement_perms_by_role
    → let g = delete_roles f ids in
      PermsOk g.roles g.measurement_permissions g.measurement_perms_by_role
unfolding delete_roles
delete_roles-PermsOk f [] c = c
delete_roles-PermsOk f (r ∷ ids) c =
    delete_roles-PermsOk (delete_role_of_team f r) ids (PermsOk-cascade _ _ _ r c)

-- The roles of a team and what is below them are gone, and so may be the team.
cascade_roles_of_team_lem :
    (f : Rbac) (t : ℤ)
    → let g = delete_roles f (keys (inner f.roles_by_team t)) in
      cascade_roles_of_team f t ≡ record f {
        roles = g.roles;
        measurement_permissions = g.measurement_permissions;
        measurement_perms_by_role = g.measurement_perms_by_role;
        roles_by_team = remove f.roles_by_team t;
      }
unfolding cascade_roles_of_team
cascade_roles_of_team_lem f t =
    ap (λ (g : Rbac). record g { roles_by_team = remove g.roles_by_team t })
      (delete_roles_lem f (keys (inner f.roles_by_team t)))

RolesOk-cascade :
    (f : Rbac) (t : ℤ)
    → RolesOk f.teams f.roles f.roles_by_team
    → RolesOk
        (remove f.teams t)
        (delete_roles f (keys (inner f.roles_by_team t))).roles
        (remove f.roles_by_team t)
RolesOk-cascade f t c = record {
  indexed = λ s id. ground (
    arith,
    at-remove f.roles_by_team t s id,
    get-delete_roles f (keys (inner f.roles_by_team t)) id,
    elem-keys-inner f.roles_by_team t id,
    c.indexed s id,
    c.indexed t id,
  );
  parent = λ id e h. ground (
    arith,
    get-delete_roles f (keys (inner f.roles_by_team t)) id,
    elem-keys-inner f.roles_by_team t id,
    get-remove f.teams t e.team_id,
    c.indexed t id,
    c.parent id e,
  );
}

MembersOk-cascade :
    (tokens : Map ℤ TokenEntry) (f : Rbac) (t : ℤ)
    → MembersOk tokens f.teams f.token_memberships f.token_memberships_by_pair
        f.token_memberships_by_token f.token_memberships_by_team
    → let g = delete_team_members f (keys (inner f.token_memberships_by_team t)) in
      MembersOk tokens
        (remove f.teams t)
        g.token_memberships
        g.token_memberships_by_pair
        g.token_memberships_by_token
        (remove f.token_memberships_by_team t)
MembersOk-cascade tokens f t c =
    let ids = keys (inner f.token_memberships_by_team t) in
    let (paired, indexed) = delete_team_members-indexed f ids c.paired c.token_indexed in
    record {
      paired = paired;
      token_indexed = indexed;
      team_indexed = λ m id. ground (
        arith,
        at-remove f.token_memberships_by_team t m id,
        get-delete_team_members f ids id,
        elem-keys-inner f.token_memberships_by_team t id,
        c.team_indexed m id,
        c.team_indexed t id,
      );
      token_parent =
          λ id e h. ground (arith, get-delete_team_members f ids id, c.token_parent id e);
      team_parent = λ id e h. ground (
        arith,
        get-delete_team_members f ids id,
        elem-keys-inner f.token_memberships_by_team t id,
        get-remove f.teams t e.team_id,
        c.team_indexed t id,
        c.team_parent id e,
      );
    }

cascade_members_of_team_lem :
    (f : Rbac) (t : ℤ)
    → let g = delete_team_members f (keys (inner f.token_memberships_by_team t)) in
      cascade_members_of_team f t ≡ record f {
        token_memberships = g.token_memberships;
        token_memberships_by_pair = g.token_memberships_by_pair;
        token_memberships_by_token = g.token_memberships_by_token;
        token_memberships_by_team = remove f.token_memberships_by_team t;
      }
unfolding cascade_members_of_team
cascade_members_of_team_lem f t =
    ap (λ (g : Rbac). record g { token_memberships_by_team = remove g.token_memberships_by_team t })
      (delete_team_members_lem f (keys (inner f.token_memberships_by_team t)))

-- Consistency below the teams for the roles of the teams `ts` and the members of the teams `us`.
record BelowTeams (tokens : Map ℤ TokenEntry) (ts us : Map ℤ TeamEntry) (f : Rbac) : Type 0 where
  roles : RolesOk ts f.roles f.roles_by_team
  perms : PermsOk f.roles f.measurement_permissions f.measurement_perms_by_role
  members :
      MembersOk tokens us f.token_memberships f.token_memberships_by_pair
        f.token_memberships_by_token f.token_memberships_by_team

module _ (tokens : Map ℤ TokenEntry) (f : Rbac) (t : ℤ) where
  cascade_roles-BelowTeams :
      IsConsistentBelow tokens f
      → BelowTeams tokens (remove f.teams t) f.teams (cascade_roles_of_team f t)
  cascade_roles-BelowTeams c =
      subst (BelowTeams tokens (remove f.teams t) f.teams) (sym (cascade_roles_of_team_lem f t))
        (record {
          roles = RolesOk-cascade f t c.roles;
          perms = delete_roles-PermsOk f (keys (inner f.roles_by_team t)) c.perms;
          members = c.members;
        })

  cascade_members-BelowTeams :
      BelowTeams tokens (remove f.teams t) f.teams f
      → BelowTeams tokens (remove f.teams t) (remove f.teams t) (cascade_members_of_team f t)
  cascade_members-BelowTeams c =
      subst (BelowTeams tokens (remove f.teams t) (remove f.teams t))
        (sym (cascade_members_of_team_lem f t))
        (record {
          roles = c.roles;
          perms = c.perms;
          members = MembersOk-cascade tokens f t c.members;
        })

-- The tables above the roles.
abbrev pub SameTeams : Rbac → Rbac → Type 0
SameTeams f g =
    (g.organizations ≡ f.organizations)
    × (g.organizations_by_name ≡ f.organizations_by_name)
    × (g.teams ≡ f.teams)
    × (g.teams_by_org ≡ f.teams_by_org)

SameTeams-cascade_roles : (f : Rbac) (t : ℤ) → SameTeams f (cascade_roles_of_team f t)
SameTeams-cascade_roles f t =
    subst (SameTeams f) (sym (cascade_roles_of_team_lem f t)) (refl, refl, refl, refl)

SameTeams-cascade_members : (f : Rbac) (t : ℤ) → SameTeams f (cascade_members_of_team f t)
SameTeams-cascade_members f t =
    subst (SameTeams f) (sym (cascade_members_of_team_lem f t)) (refl, refl, refl, refl)

-- The cascade from a team leaves the organizations, the teams and their indices as they were.
pub SameTeams-cascade_delete_team : (f : Rbac) (t : ℤ) → SameTeams f (cascade_delete_team f t)
unfolding cascade_delete_team
SameTeams-cascade_delete_team f t =
    let (a, b, c, d) = SameTeams-cascade_roles f t in
    let (a', b', c', d') = SameTeams-cascade_members (cascade_roles_of_team f t) t in
    (a' ∙ a, b' ∙ b, c' ∙ c, d' ∙ d)

-- Once the cascade is done, the team can go, and all below the teams is consistent.
pub cascade_delete_team-IsConsistentBelow :
    (tokens : Map ℤ TokenEntry) (f : Rbac) (t : ℤ)
    → IsConsistentBelow tokens f
    → IsConsistentBelow tokens (delete_team_of_org f t)
unfolding delete_team_of_org cascade_delete_team
cascade_delete_team-IsConsistentBelow tokens f t c =
    let g = cascade_roles_of_team f t in
    let same = (SameTeams-cascade_roles f t).2 in
    let h = cascade_members-BelowTeams tokens g t (
      subst (λ (ts : Map ℤ TeamEntry). BelowTeams tokens (remove ts t) ts g) (sym same)
        (cascade_roles-BelowTeams tokens f t c)) in
    let same' = (SameTeams-cascade_members g t).2 in
    let k =
      subst
        (λ (ts : Map ℤ TeamEntry).
          BelowTeams tokens (remove ts t) (remove ts t) (cascade_members_of_team g t))
        (sym same') h in
    record { roles = k.roles; perms = k.perms; members = k.members }
