-- ===== src/Rbac/Tables.antt =====
-- The invariant of each RBAC table beside its index and its parents' table
-- (internal/cluster/raft/fsm_rbac.go).
use iot_edge_db.Prelude.{
  ◌≡◌, ite, Bool, true, false, Option, none, some, is_some, GoString, str_dec, ℤ, int_dec,
}
use iot_edge_db.GoMap.{Map, Index, get, at, str_key, int_key}
use iot_edge_db.Types.{
  TokenEntry, OrganizationEntry, TeamEntry, RoleEntry, MeasurementPermissionEntry,
  TokenMembershipEntry,
}
use iot_edge_db.Tokens.Consistent.{points_to}
use iot_edge_db.Rbac.State.{Rbac, inc_rejected_rbac}

abbrev pub has_name : GoString → Option OrganizationEntry → Bool
has_name q none = false
has_name q (some e) = ite (str_dec e.name q) true false

abbrev pub is_team : ℤ → GoString → Option TeamEntry → Bool
is_team o q none = false
is_team o q (some e) = ite (int_dec e.organization_id o) (ite (str_dec e.name q) true false) false

abbrev pub of_team : ℤ → Option RoleEntry → Bool
of_team t none = false
of_team t (some e) = ite (int_dec e.team_id t) true false

abbrev pub of_role : ℤ → Option MeasurementPermissionEntry → Bool
of_role r none = false
of_role r (some e) = ite (int_dec e.role_id r) true false

abbrev pub is_member : ℤ → ℤ → Option TokenMembershipEntry → Bool
is_member t m none = false
is_member t m (some e) = ite (int_dec e.token_id t) (ite (int_dec e.team_id m) true false) false

abbrev pub member_of_token : ℤ → Option TokenMembershipEntry → Bool
member_of_token t none = false
member_of_token t (some e) = ite (int_dec e.token_id t) true false

abbrev pub member_of_team : ℤ → Option TokenMembershipEntry → Bool
member_of_team m none = false
member_of_team m (some e) = ite (int_dec e.team_id m) true false

pub record OrgsOk (orgs : Map ℤ OrganizationEntry) (by_name : Map GoString ℤ) : Type 0 where
  pub named : (q : GoString) (id : ℤ) → points_to id (get by_name q) ≡ has_name q (get orgs id)

pub record TeamsOk (orgs : Map ℤ OrganizationEntry) (teams : Map ℤ TeamEntry)
    (by_org : Index ℤ GoString ℤ) : Type 0 where
  pub named :
      (o : ℤ) (q : GoString) (id : ℤ) → points_to id (at by_org o q) ≡ is_team o q (get teams id)
  pub parent :
      (id : ℤ) (e : TeamEntry) → get teams id ≡ some e → is_some (get orgs e.organization_id) ≡ true

pub record RolesOk (teams : Map ℤ TeamEntry) (roles : Map ℤ RoleEntry) (by_team : Index ℤ ℤ Unit)
    : Type 0 where
  pub indexed : (t id : ℤ) → is_some (at by_team t id) ≡ of_team t (get roles id)
  pub parent :
      (id : ℤ) (e : RoleEntry) → get roles id ≡ some e → is_some (get teams e.team_id) ≡ true

pub record PermsOk (roles : Map ℤ RoleEntry) (perms : Map ℤ MeasurementPermissionEntry)
    (by_role : Index ℤ ℤ Unit) : Type 0 where
  pub indexed : (r id : ℤ) → is_some (at by_role r id) ≡ of_role r (get perms id)
  pub parent :
      (id : ℤ) (e : MeasurementPermissionEntry)
      → get perms id ≡ some e
      → is_some (get roles e.role_id) ≡ true

pub record MembersOk (tokens : Map ℤ TokenEntry) (teams : Map ℤ TeamEntry)
    (members : Map ℤ TokenMembershipEntry) (by_pair : Index ℤ ℤ ℤ)
    (by_token by_team : Index ℤ ℤ Unit) : Type 0 where
  pub paired : (t m id : ℤ) → points_to id (at by_pair t m) ≡ is_member t m (get members id)
  pub token_indexed : (t id : ℤ) → is_some (at by_token t id) ≡ member_of_token t (get members id)
  pub team_indexed : (m id : ℤ) → is_some (at by_team m id) ≡ member_of_team m (get members id)
  pub token_parent :
      (id : ℤ) (e : TokenMembershipEntry)
      → get members id ≡ some e
      → is_some (get tokens e.token_id) ≡ true
  pub team_parent :
      (id : ℤ) (e : TokenMembershipEntry)
      → get members id ≡ some e
      → is_some (get teams e.team_id) ≡ true

-- What stands below the teams.
pub record IsConsistentBelow (tokens : Map ℤ TokenEntry) (f : Rbac) : Type 0 where
  pub roles : RolesOk f.teams f.roles f.roles_by_team
  pub perms : PermsOk f.roles f.measurement_permissions f.measurement_perms_by_role
  pub members :
      MembersOk tokens f.teams f.token_memberships f.token_memberships_by_pair
        f.token_memberships_by_token f.token_memberships_by_team

pub record IsConsistent (tokens : Map ℤ TokenEntry) (f : Rbac) : Type 0 where
  pub orgs : OrgsOk f.organizations f.organizations_by_name
  pub teams : TeamsOk f.organizations f.teams f.teams_by_org
  pub below : IsConsistentBelow tokens f

-- A command that is refused counts it.
pub inc_rejected_rbac-IsConsistent :
    {tokens : Map ℤ TokenEntry} {f : Rbac}
    → IsConsistent tokens f
    → IsConsistent tokens (inc_rejected_rbac f)
inc_rejected_rbac-IsConsistent c = record {
  orgs = c.orgs;
  teams = c.teams;
  below = record { roles = c.below.roles; perms = c.below.perms; members = c.below.members };
}
