-- ===== src/Snapshot/Rows.antt =====
-- The organizations, teams and memberships that Restore keeps of a consistent state's snapshot (internal/cluster/raft/fsm.go).
use iot_edge_db.Prelude.{◌≡◌, refl, true, false, Option, none, some, arith, GoString, ℤ, is_some}
use iot_edge_db.GoMap.{
  Map, Index, empty, get, at, IsPart, IsPart-get, sift-IsPart, sift-all, copied, kept_of_copied,
  get_of_copied, str_key, int_key,
}
use iot_edge_db.Types.{
  TokenEntry, OrganizationEntry, TeamEntry, RoleEntry, MeasurementPermissionEntry,
  TokenMembershipEntry,
}
use iot_edge_db.Tokens.State.{validate_token_entry}
use iot_edge_db.Rbac.State.{
  validate_organization_entry, validate_team_entry, validate_role_entry,
  validate_measurement_permission_entry, validate_token_membership_entry,
}
use iot_edge_db.Rbac.Tables.{OrgsOk, TeamsOk}
use iot_edge_db.Fsm.State.{ClusterFsm}
use iot_edge_db.Fsm.Consistent.{IsAuthConsistent}
use iot_edge_db.Snapshot.{snapshot}
use iot_edge_db.Snapshot.Restore.{
  accepts_organization, index_organization, accepts_team, index_team, accepts_membership,
  index_pair, restored_orgs, restored_teams, restored_memberships,
}
use iot_edge_db.Snapshot.Kept.{
  PairsOk, keep_organization, empty-OrgsOk, keep_team, empty-TeamsOk, keep_membership,
  empty-PairsOk,
}

-- Every row passes the validation of Restore.
pub record HasValidRows (f : ClusterFsm) : Type 0 where
  pub token :
      (id : ℤ) (e : TokenEntry) → get f.auth.tokens id ≡ some e → validate_token_entry e ≡ none
  pub organization :
      (id : ℤ) (e : OrganizationEntry)
      → get f.rbac.organizations id ≡ some e
      → validate_organization_entry e ≡ none
  pub team : (id : ℤ) (e : TeamEntry) → get f.rbac.teams id ≡ some e → validate_team_entry e ≡ none
  pub role : (id : ℤ) (e : RoleEntry) → get f.rbac.roles id ≡ some e → validate_role_entry e ≡ none
  pub permission :
      (id : ℤ) (e : MeasurementPermissionEntry)
      → get f.rbac.measurement_permissions id ≡ some e
      → validate_measurement_permission_entry e ≡ none
  pub membership :
      (id : ℤ) (e : TokenMembershipEntry)
      → get f.rbac.token_memberships id ≡ some e
      → validate_token_membership_entry e ≡ none

module _ (f : ClusterFsm) (c : IsAuthConsistent f) (ok : HasValidRows f) where
  -- Two organizations with one name are one.
  same_organization :
      (kept : Map ℤ OrganizationEntry) (seen : Map GoString ℤ) (k : ℤ) (v : OrganizationEntry)
      (x : ℤ) (w : Option OrganizationEntry)
      → IsPart (copied some f.rbac.organizations) kept
      → OrgsOk kept seen
      → get f.rbac.organizations k ≡ some v
      → get seen v.name ≡ some x
      → get kept x ≡ w
      → is_some (get kept k) ≡ true
  same_organization kept seen k v x none part inv e h j = ground (arith, inv.named v.name x)
  same_organization kept seen k v x (some w) part inv e h j = ground (
    arith,
    inv.named v.name x,
    get_of_copied f.rbac.organizations x w (part x w j),
    c.rbac.orgs.named v.name x,
    c.rbac.orgs.named v.name k,
  )

  organization_again :
      (kept : Map ℤ OrganizationEntry) (seen : Map GoString ℤ) (k : ℤ) (v : OrganizationEntry)
      (o : Option ℤ)
      → IsPart (copied some f.rbac.organizations) kept
      → OrgsOk kept seen
      → get (copied some f.rbac.organizations) k ≡ some (some v)
      → get seen v.name ≡ o
      → accepts_organization seen k v ≡ false
      → get kept k ≡ some v
  organization_again kept seen k v none part inv e h t =
      ground (arith, ok.organization k v (get_of_copied f.rbac.organizations k v e))
  organization_again kept seen k v (some x) part inv e h t = ground (
    arith,
    IsPart-get (copied some f.rbac.organizations) kept k v part e,
    same_organization kept seen k v x (get kept x) part inv
        (get_of_copied f.rbac.organizations k v e) h refl,
  )

  pub restored_organizations :
      (id : ℤ) → get (restored_orgs (snapshot f)).kept id ≡ get f.rbac.organizations id
  unfolding restored_orgs snapshot
  restored_organizations =
      let m = copied some f.rbac.organizations in
      kept_of_copied f.rbac.organizations (restored_orgs (snapshot f)).kept
        (sift-IsPart m accepts_organization index_organization empty)
        (sift-all accepts_organization index_organization m empty OrgsOk
          (keep_organization (snapshot f)) (empty-OrgsOk (snapshot f))
          (λ kept seen k v part inv e t.
            organization_again kept seen k v (get seen v.name) part inv e refl t))

  -- Two teams of an organization with one name are one.
  same_team :
      (orgs : Map ℤ OrganizationEntry) (kept : Map ℤ TeamEntry) (seen : Index ℤ GoString ℤ) (k : ℤ)
      (v : TeamEntry) (x : ℤ) (w : Option TeamEntry)
      → IsPart (copied some f.rbac.teams) kept
      → TeamsOk orgs kept seen
      → get f.rbac.teams k ≡ some v
      → at seen v.organization_id v.name ≡ some x
      → get kept x ≡ w
      → is_some (get kept k) ≡ true
  same_team orgs kept seen k v x none part inv e h j =
      ground (arith, inv.named v.organization_id v.name x)
  same_team orgs kept seen k v x (some w) part inv e h j = ground (
    arith,
    inv.named v.organization_id v.name x,
    get_of_copied f.rbac.teams x w (part x w j),
    c.rbac.teams.named v.organization_id v.name x,
    c.rbac.teams.named v.organization_id v.name k,
  )

  module _ (orgs : Map ℤ OrganizationEntry)
      (same : (id : ℤ) → get orgs id ≡ get f.rbac.organizations id) where
    team_again :
        (kept : Map ℤ TeamEntry) (seen : Index ℤ GoString ℤ) (k : ℤ) (v : TeamEntry) (o : Option ℤ)
        → IsPart (copied some f.rbac.teams) kept
        → TeamsOk orgs kept seen
        → get (copied some f.rbac.teams) k ≡ some (some v)
        → at seen v.organization_id v.name ≡ o
        → accepts_team orgs seen k v ≡ false
        → get kept k ≡ some v
    team_again kept seen k v none part inv e h t =
        let e' = get_of_copied f.rbac.teams k v e in
        ground (arith, ok.team k v e', c.rbac.teams.parent k v e', same v.organization_id)
    team_again kept seen k v (some x) part inv e h t = ground (
      arith,
      IsPart-get (copied some f.rbac.teams) kept k v part e,
      same_team orgs kept seen k v x (get kept x) part inv (get_of_copied f.rbac.teams k v e) h
          refl,
    )

    pub restored_same_teams :
        (id : ℤ) → get (restored_teams (snapshot f) orgs).kept id ≡ get f.rbac.teams id
    unfolding restored_teams snapshot
    restored_same_teams =
        let m = copied some f.rbac.teams in
        kept_of_copied f.rbac.teams (restored_teams (snapshot f) orgs).kept
          (sift-IsPart m (accepts_team orgs) index_team empty)
          (sift-all (accepts_team orgs) index_team m empty (TeamsOk orgs)
            (keep_team (snapshot f) orgs) (empty-TeamsOk (snapshot f) orgs)
            (λ kept seen k v part inv e t.
              team_again kept seen k v (at seen v.organization_id v.name) part inv e refl t))

  -- Two memberships of a token in a team are one.
  same_membership :
      (tokens : Map ℤ TokenEntry) (teams : Map ℤ TeamEntry) (kept : Map ℤ TokenMembershipEntry)
      (seen : Index ℤ ℤ ℤ) (k : ℤ) (v : TokenMembershipEntry) (x : ℤ)
      (w : Option TokenMembershipEntry)
      → IsPart (copied some f.rbac.token_memberships) kept
      → PairsOk tokens teams kept seen
      → get f.rbac.token_memberships k ≡ some v
      → at seen v.token_id v.team_id ≡ some x
      → get kept x ≡ w
      → is_some (get kept k) ≡ true
  same_membership tokens teams kept seen k v x none part inv e h j =
      ground (arith, inv.paired v.token_id v.team_id x)
  same_membership tokens teams kept seen k v x (some w) part inv e h j = ground (
    arith,
    inv.paired v.token_id v.team_id x,
    get_of_copied f.rbac.token_memberships x w (part x w j),
    c.rbac.below.members.paired v.token_id v.team_id x,
    c.rbac.below.members.paired v.token_id v.team_id k,
  )

  module _ (tokens : Map ℤ TokenEntry) (teams : Map ℤ TeamEntry)
      (same_tokens : (id : ℤ) → get tokens id ≡ get f.auth.tokens id)
      (same_teams : (id : ℤ) → get teams id ≡ get f.rbac.teams id) where
    membership_again :
        (kept : Map ℤ TokenMembershipEntry) (seen : Index ℤ ℤ ℤ) (k : ℤ) (v : TokenMembershipEntry)
        (o : Option ℤ)
        → IsPart (copied some f.rbac.token_memberships) kept
        → PairsOk tokens teams kept seen
        → get (copied some f.rbac.token_memberships) k ≡ some (some v)
        → at seen v.token_id v.team_id ≡ o
        → accepts_membership tokens teams seen k v ≡ false
        → get kept k ≡ some v
    membership_again kept seen k v none part inv e h t =
        let e' = get_of_copied f.rbac.token_memberships k v e in
        ground (
          arith,
          ok.membership k v e',
          c.rbac.below.members.token_parent k v e',
          c.rbac.below.members.team_parent k v e',
          same_tokens v.token_id,
          same_teams v.team_id,
        )
    membership_again kept seen k v (some x) part inv e h t = ground (
      arith,
      IsPart-get (copied some f.rbac.token_memberships) kept k v part e,
      same_membership tokens teams kept seen k v x (get kept x) part inv
          (get_of_copied f.rbac.token_memberships k v e) h refl,
    )

    pub restored_same_memberships :
        (id : ℤ)
        → get (restored_memberships (snapshot f) tokens teams).kept id
          ≡ get f.rbac.token_memberships id
    unfolding restored_memberships snapshot
    restored_same_memberships =
        let m = copied some f.rbac.token_memberships in
        kept_of_copied f.rbac.token_memberships
          (restored_memberships (snapshot f) tokens teams).kept
          (sift-IsPart m (accepts_membership tokens teams) index_pair empty)
          (sift-all (accepts_membership tokens teams) index_pair m empty (PairsOk tokens teams)
            (keep_membership (snapshot f) tokens teams) (empty-PairsOk (snapshot f) tokens teams)
            (λ kept seen k v part inv e t.
              membership_again kept seen k v (at seen v.token_id v.team_id) part inv e refl t))
