-- ===== src/Snapshot/Kept.antt =====
-- The entries that the loops of Restore keep (internal/cluster/raft/fsm.go).
use iot_edge_db.Prelude.{◌≡◌, true, some, arith, is_some, GoString, ℤ}
use iot_edge_db.GoMap.{
  Map, Index, empty, get, put, at, at-add, at-empty, get-put, get-empty, sift-keeps, IsPart,
  IsPart-get, str_key, int_key,
}
use iot_edge_db.Types.{
  TokenEntry, OrganizationEntry, TeamEntry, RoleEntry, MeasurementPermissionEntry,
  TokenMembershipEntry,
}
use iot_edge_db.Tokens.Consistent.{points_to}
use iot_edge_db.Rbac.Tables.{OrgsOk, TeamsOk, is_member}
use iot_edge_db.Snapshot.{FsmSnapshot}
use iot_edge_db.Snapshot.Restore.{
  unmarked, accepts_organization, index_organization, accepts_team, index_team, accepts_role,
  accepts_permission, accepts_membership, index_pair, restored_orgs, restored_teams, restored_roles,
  restored_permissions, restored_memberships,
}

module _ (s : FsmSnapshot) where
  pub keep_organization :
      (kept : Map ℤ OrganizationEntry) (seen : Map GoString ℤ) (k : ℤ) (v : OrganizationEntry)
      → IsPart s.organizations kept
      → OrgsOk kept seen
      → get s.organizations k ≡ some (some v)
      → accepts_organization seen k v ≡ true
      → OrgsOk (put kept k v) (index_organization seen k v)
  keep_organization kept seen k v part c e t = record {
    named = λ q id. ground (
      arith,
      get-put kept k v id,
      get-put seen v.name k q,
      c.named q id,
      c.named v.name k,
      IsPart-get s.organizations kept k v part e,
    );
  }

  pub empty-OrgsOk : OrgsOk empty empty
  empty-OrgsOk = record {
    named = λ q id. ground (arith, get-empty {V = ℤ} q, get-empty {V = OrganizationEntry} id);
  }

  pub restored_orgs-OrgsOk : OrgsOk (restored_orgs s).kept (restored_orgs s).seen
  unfolding restored_orgs
  restored_orgs-OrgsOk =
      sift-keeps accepts_organization index_organization s.organizations empty OrgsOk
        keep_organization empty-OrgsOk

  module _ (orgs : Map ℤ OrganizationEntry) where
    pub keep_team :
        (kept : Map ℤ TeamEntry) (seen : Index ℤ GoString ℤ) (k : ℤ) (v : TeamEntry)
        → IsPart s.teams kept
        → TeamsOk orgs kept seen
        → get s.teams k ≡ some (some v)
        → accepts_team orgs seen k v ≡ true
        → TeamsOk orgs (put kept k v) (index_team seen k v)
    keep_team kept seen k v part c e t = record {
      named = λ o q id. ground (
        arith,
        get-put kept k v id,
        at-add seen v.organization_id v.name k o q,
        c.named o q id,
        c.named v.organization_id v.name k,
        IsPart-get s.teams kept k v part e,
      );
      parent = λ id x h. ground (arith, get-put kept k v id, c.parent id x);
    }

    pub empty-TeamsOk : TeamsOk orgs empty empty
    empty-TeamsOk = record {
      named = λ o q id. ground (arith, at-empty {V = ℤ} o q, get-empty {V = TeamEntry} id);
      parent = λ id x h. ground (arith, get-empty {V = TeamEntry} id);
    }

    pub restored_teams-TeamsOk :
        TeamsOk orgs (restored_teams s orgs).kept (restored_teams s orgs).seen
    unfolding restored_teams
    restored_teams-TeamsOk =
        sift-keeps (accepts_team orgs) index_team s.teams empty (TeamsOk orgs) keep_team
          empty-TeamsOk

  -- Every role that is kept has its team.
  abbrev pub HasTeams : Map ℤ TeamEntry → Map ℤ RoleEntry → Type 0
  HasTeams teams kept =
      (id : ℤ) (e : RoleEntry) → get kept id ≡ some e → is_some (get teams e.team_id) ≡ true

  pub restored_roles-HasTeams :
      (teams : Map ℤ TeamEntry) → HasTeams teams (restored_roles s teams).kept
  unfolding restored_roles
  restored_roles-HasTeams teams =
      sift-keeps (accepts_role teams) unmarked s.roles tt (λ kept u. HasTeams teams kept)
        (λ kept u k v part c e t id x h. ground (arith, get-put kept k v id, c id x))
        (λ id e h. ground (arith, get-empty {V = RoleEntry} id))

  abbrev pub HasRoles : Map ℤ RoleEntry → Map ℤ MeasurementPermissionEntry → Type 0
  HasRoles roles kept =
      (id : ℤ) (e : MeasurementPermissionEntry)
      → get kept id ≡ some e
      → is_some (get roles e.role_id) ≡ true

  pub restored_permissions-HasRoles :
      (roles : Map ℤ RoleEntry) → HasRoles roles (restored_permissions s roles).kept
  unfolding restored_permissions
  restored_permissions-HasRoles roles =
      sift-keeps (accepts_permission roles) unmarked s.measurement_permissions tt
        (λ kept u. HasRoles roles kept)
        (λ kept u k v part c e t id x h. ground (arith, get-put kept k v id, c id x))
        (λ id e h. ground (arith, get-empty {V = MeasurementPermissionEntry} id))

pub record PairsOk (tokens : Map ℤ TokenEntry) (teams : Map ℤ TeamEntry)
    (kept : Map ℤ TokenMembershipEntry) (pairs : Index ℤ ℤ ℤ) : Type 0 where
  pub paired : (t m id : ℤ) → points_to id (at pairs t m) ≡ is_member t m (get kept id)
  pub token_parent :
      (id : ℤ) (e : TokenMembershipEntry)
      → get kept id ≡ some e
      → is_some (get tokens e.token_id) ≡ true
  pub team_parent :
      (id : ℤ) (e : TokenMembershipEntry)
      → get kept id ≡ some e
      → is_some (get teams e.team_id) ≡ true

module _ (s : FsmSnapshot) (tokens : Map ℤ TokenEntry) (teams : Map ℤ TeamEntry) where
  pub keep_membership :
      (kept : Map ℤ TokenMembershipEntry) (seen : Index ℤ ℤ ℤ) (k : ℤ) (v : TokenMembershipEntry)
      → IsPart s.token_memberships kept
      → PairsOk tokens teams kept seen
      → get s.token_memberships k ≡ some (some v)
      → accepts_membership tokens teams seen k v ≡ true
      → PairsOk tokens teams (put kept k v) (index_pair seen k v)
  keep_membership kept seen k v part c e a = record {
    paired = λ t m id. ground (
      arith,
      get-put kept k v id,
      at-add seen v.token_id v.team_id k t m,
      c.paired t m id,
      c.paired v.token_id v.team_id k,
      IsPart-get s.token_memberships kept k v part e,
    );
    token_parent = λ id x h. ground (arith, get-put kept k v id, c.token_parent id x);
    team_parent = λ id x h. ground (arith, get-put kept k v id, c.team_parent id x);
  }

  pub empty-PairsOk : PairsOk tokens teams empty empty
  empty-PairsOk = record {
    paired =
        λ t m id. ground (arith, at-empty {V = ℤ} t m, get-empty {V = TokenMembershipEntry} id);
    token_parent = λ id x h. ground (arith, get-empty {V = TokenMembershipEntry} id);
    team_parent = λ id x h. ground (arith, get-empty {V = TokenMembershipEntry} id);
  }

  pub restored_memberships-PairsOk :
      let r = restored_memberships s tokens teams in PairsOk tokens teams r.kept r.seen
  unfolding restored_memberships
  restored_memberships-PairsOk =
      sift-keeps (accepts_membership tokens teams) index_pair s.token_memberships empty
        (PairsOk tokens teams) keep_membership empty-PairsOk
