-- ===== src/Rbac/Teardown.antt =====
-- applyDeleteOrganization and applyDeleteTeam (internal/cluster/raft/fsm_rbac.go), and the invariant of the
-- RBAC tables.
use iot_edge_db.Prelude.{
  ℕ, ◌≡◌, refl, ap, ◌∙◌, sym, ite, Bool, true, false, Option, none, some, List, [], ◌∷◌, arith, ℤ,
  int_dec, elem, if◌then◌else◌, GoString, is_zero, Bool-cases, inl, inr,
}
use iot_edge_db.GoMap.{
  Map, Index, get, remove, inner, drop, get-remove, at-remove, at-drop, values, elem-values,
  value_of_elem, int_key, str_key, get-inner,
}
use iot_edge_db.Types.{TokenEntry, OrganizationEntry, TeamEntry, IdPayload}
use iot_edge_db.Rbac.State.{Rbac}
use iot_edge_db.Rbac.Cascade.{delete_team_of_org, delete_teams, cascade_delete_org}
use iot_edge_db.Rbac.Organizations.{
  remove_organization, delete_organization_found, apply_delete_organization,
}
use iot_edge_db.Rbac.Teams.{remove_team, delete_team_found, apply_delete_team}
use iot_edge_db.Rbac.Below.{SameTeams-cascade_delete_team, cascade_delete_team-IsConsistentBelow}
use iot_edge_db.Rbac.Tables.{
  OrgsOk, inc_rejected_rbac-IsConsistent, TeamsOk, IsConsistentBelow, IsConsistent, is_team,
}

-- What the loop over the teams of an organization leaves above the roles.
abbrev SameOrgs : Rbac → Rbac → Type 0
SameOrgs f g =
    (g.organizations ≡ f.organizations)
    × (g.organizations_by_name ≡ f.organizations_by_name)
    × (g.teams_by_org ≡ f.teams_by_org)

delete_team_of_org-teams : (f : Rbac) (t : ℤ) → (delete_team_of_org f t).teams ≡ remove f.teams t
unfolding delete_team_of_org
delete_team_of_org-teams f t =
    ap (λ (ts : Map ℤ TeamEntry). remove ts t) (SameTeams-cascade_delete_team f t).2

delete_team_of_org-SameOrgs : (f : Rbac) (t : ℤ) → SameOrgs f (delete_team_of_org f t)
unfolding delete_team_of_org
delete_team_of_org-SameOrgs f t = let (a, b, c, d) = SameTeams-cascade_delete_team f t in (a, b, d)

delete_teams-SameOrgs : (f : Rbac) (ids : List ℤ) → SameOrgs f (delete_teams f ids)
unfolding delete_teams
delete_teams-SameOrgs f [] = (refl, refl, refl)
delete_teams-SameOrgs f (t ∷ ids) =
    let (a, b, c) = delete_team_of_org-SameOrgs f t in
    let (a', b', c') = delete_teams-SameOrgs (delete_team_of_org f t) ids in
    (a' ∙ a, b' ∙ b, c' ∙ c)

get-delete_teams :
    (f : Rbac) (ids : List ℤ) (x : ℤ)
    → get (delete_teams f ids).teams x ≡ (if elem int_dec x ids then none else get f.teams x)
unfolding delete_teams elem
get-delete_teams f [] x = refl
get-delete_teams f (t ∷ ids) x = ground (
  arith,
  get-delete_teams (delete_team_of_org f t) ids x,
  ap (λ (ts : Map ℤ TeamEntry). get ts x) (delete_team_of_org-teams f t),
  get-remove f.teams t x,
)

delete_teams-IsConsistentBelow :
    (tokens : Map ℤ TokenEntry) (f : Rbac) (ids : List ℤ)
    → IsConsistentBelow tokens f
    → IsConsistentBelow tokens (delete_teams f ids)
unfolding delete_teams
delete_teams-IsConsistentBelow tokens f [] c = c
delete_teams-IsConsistentBelow tokens f (t ∷ ids) c =
    delete_teams-IsConsistentBelow tokens (delete_team_of_org f t) ids
      (cascade_delete_team-IsConsistentBelow tokens f t c)

abbrev pub in_org : ℤ → Option TeamEntry → Bool
in_org o none = false
in_org o (some e) = ite (int_dec e.organization_id o) true false

-- An organization goes with all its teams.
module _ (orgs : Map ℤ OrganizationEntry) (by_name : Map GoString ℤ) (o : ℤ) (e : OrganizationEntry)
    (h : get orgs o ≡ some e) where
  OrgsOk-remove : OrgsOk orgs by_name → OrgsOk (remove orgs o) (remove by_name e.name)
  OrgsOk-remove c = record {
    named = λ q id. ground (
      arith,
      get-remove orgs o id,
      get-remove by_name e.name q,
      c.named q id,
      c.named e.name o,
      c.named q o,
    );
  }

module _ (orgs : Map ℤ OrganizationEntry) (teams : Map ℤ TeamEntry) (by_org : Index ℤ GoString ℤ)
    (c : TeamsOk orgs teams by_org) (o : ℤ) where
  -- The loop visits a team exactly when it is one of the organization.
  team_is_visited :
      (x : ℤ) (t : TeamEntry)
      → get teams x ≡ some t
      → t.organization_id ≡ o
      → elem int_dec x (values (inner by_org o)) ≡ true
  team_is_visited x t h p =
      elem-values int_dec (inner by_org o) t.name x
        (get-inner by_org o t.name ∙ ground (arith, c.named o t.name x))

  visited_is_team :
      (x : ℤ)
      → elem int_dec x (values (inner by_org o)) ≡ true
      → (q : GoString) × (is_team o q (get teams x) ≡ true)
  visited_is_team x h =
      let (q, e) = value_of_elem int_dec (inner by_org o) x h in
      (q, ground (arith, c.named o q x, get-inner by_org o q))

  in_org_of_is_team :
      (r : Option TeamEntry) (q : GoString) → is_team o q r ≡ true → in_org o r ≡ true
  in_org_of_is_team none q h = h
  in_org_of_is_team (some e) q h = ground arith

  not_in_org :
      (x : ℤ) (r : Option TeamEntry)
      → get teams x ≡ r
      → elem int_dec x (values (inner by_org o)) ≡ false
      → in_org o r ≡ false
  not_in_org x none k h = refl
  not_in_org x (some e) k h = ground (arith, team_is_visited x e k)

  visited_lem : (x : ℤ) → elem int_dec x (values (inner by_org o)) ≡ in_org o (get teams x)
  visited_lem x = elim (Bool-cases (elem int_dec x (values (inner by_org o)))) [
    | inl h ↦ let (q, e) = visited_is_team x h in h ∙ sym (in_org_of_is_team (get teams x) q e)
    | inr h ↦ h ∙ sym (not_in_org x (get teams x) refl h)
  ]

  TeamsOk-remove :
      (teams' : Map ℤ TeamEntry)
      → ((x : ℤ)
          → get teams' x ≡ (if elem int_dec x (values (inner by_org o)) then none else get teams x))
      → TeamsOk (remove orgs o) teams' (remove by_org o)
  TeamsOk-remove teams' g = record {
    named = λ p q id. ground (arith, g id, visited_lem id, at-remove by_org o p q, c.named p q id);
    parent = λ id e h.
        ground (arith, g id, visited_lem id, get-remove orgs o e.organization_id, c.parent id e);
  }

-- The organization is gone with all that is below it.
remove_organization-IsConsistent :
    (tokens : Map ℤ TokenEntry) (f : Rbac) (o : ℤ) (e : OrganizationEntry)
    → get f.organizations o ≡ some e
    → IsConsistent tokens f
    → IsConsistent tokens (remove_organization f o e)
unfolding remove_organization cascade_delete_org
remove_organization-IsConsistent tokens f o e h c =
    let ids = values (inner f.teams_by_org o) in
    let (a, b, d) = delete_teams-SameOrgs f ids in
    let below = delete_teams-IsConsistentBelow tokens f ids c.below in
    record {
      orgs = rw (a, b) (OrgsOk-remove f.organizations f.organizations_by_name o e h c.orgs);
      teams =
          rw (a, d)
            (TeamsOk-remove f.organizations f.teams f.teams_by_org c.teams o
              (delete_teams f ids).teams (get-delete_teams f ids));
      below = record { roles = below.roles; perms = below.perms; members = below.members };
    }

delete_organization_found-IsConsistent :
    (tokens : Map ℤ TokenEntry) (f : Rbac) (o : ℤ) (r : Option OrganizationEntry)
    → get f.organizations o ≡ r
    → IsConsistent tokens f
    → IsConsistent tokens (delete_organization_found f o r).state
delete_organization_found-IsConsistent tokens f o none h c = c
delete_organization_found-IsConsistent tokens f o (some e) h c =
    remove_organization-IsConsistent tokens f o e h c

-- In a state whose RBAC indices are exact and that has no orphans, deleting an organization leaves the
-- same of every table, whatever the command holds: the organization's teams, their roles, those
-- roles' measurement permissions and the teams' memberships go with it, and no other row loses its
-- parent or its index entry.
pub delete_organization-IsConsistent :
    (tokens : Map ℤ TokenEntry) (f : Rbac) (o : Option IdPayload) (i : ℕ)
    → IsConsistent tokens f
    → IsConsistent tokens (apply_delete_organization f o i).state
unfolding apply_delete_organization
delete_organization-IsConsistent tokens f none i c = c
delete_organization-IsConsistent tokens f (some p) i c = elim (Bool-cases (is_zero p.id)) [
  | inl h ↦ rw h (inc_rejected_rbac-IsConsistent c)
  | inr h ↦ rw h (delete_organization_found-IsConsistent tokens f p.id _ refl c)
]

-- Deleting an organization that is there, in a consistent state, returns no error and takes away exactly
-- its teams: every other team stays as it is.
pub delete_organization-teams :
    (tokens : Map ℤ TokenEntry) (f : Rbac) (p : IdPayload) (i : ℕ) (e : OrganizationEntry)
    → IsConsistent tokens f
    → is_zero p.id ≡ false
    → get f.organizations p.id ≡ some e
    → let r = apply_delete_organization f (some p) i in
      (r.error ≡ none)
      × (get r.state.organizations p.id ≡ none)
      × ((x : ℤ)
          → get r.state.teams x ≡ (if in_org p.id (get f.teams x) then none else get f.teams x))
unfolding apply_delete_organization remove_organization cascade_delete_org
delete_organization-teams tokens f p i e c z h =
    let ids = values (inner f.teams_by_org p.id) in
    rw (z, h)
      (
        refl,
        ground (arith, get-remove (delete_teams f ids).organizations p.id p.id),
        λ x. ground (
          arith,
          get-delete_teams f ids x,
          visited_lem f.organizations f.teams f.teams_by_org c.teams p.id x,
        ),
      )

-- A team, when its rows below are gone.
TeamsOk-drop :
    (orgs : Map ℤ OrganizationEntry) (teams : Map ℤ TeamEntry) (by_org : Index ℤ GoString ℤ) (t : ℤ)
    (e : TeamEntry)
    → get teams t ≡ some e
    → TeamsOk orgs teams by_org
    → TeamsOk orgs (remove teams t) (drop by_org e.organization_id e.name)
TeamsOk-drop orgs teams by_org t e h c = record {
  named = λ p q id. ground (
    arith,
    get-remove teams t id,
    at-drop by_org e.organization_id e.name p q,
    c.named p q id,
    c.named p q t,
  );
  parent = λ id x k. ground (arith, get-remove teams t id, c.parent id x);
}

remove_team-IsConsistent :
    (tokens : Map ℤ TokenEntry) (f : Rbac) (t : ℤ) (e : TeamEntry)
    → get f.teams t ≡ some e
    → IsConsistent tokens f
    → IsConsistent tokens (remove_team f t e)
unfolding remove_team delete_team_of_org
remove_team-IsConsistent tokens f t e h c =
    let (a, b, d, k) = SameTeams-cascade_delete_team f t in
    let below = cascade_delete_team-IsConsistentBelow tokens f t c.below in
    record {
      orgs = rw (a, b) c.orgs;
      teams = rw (a, d, k) (TeamsOk-drop f.organizations f.teams f.teams_by_org t e h c.teams);
      below = record { roles = below.roles; perms = below.perms; members = below.members };
    }

delete_team_found-IsConsistent :
    (tokens : Map ℤ TokenEntry) (f : Rbac) (t : ℤ) (r : Option TeamEntry)
    → get f.teams t ≡ r
    → IsConsistent tokens f
    → IsConsistent tokens (delete_team_found f t r).state
delete_team_found-IsConsistent tokens f t none h c = c
delete_team_found-IsConsistent tokens f t (some e) h c = remove_team-IsConsistent tokens f t e h c

-- In a state whose RBAC indices are exact and that has no orphans, deleting a team leaves the same of
-- every table, whatever the command holds: its roles, their measurement permissions and its memberships
-- go with it.
pub delete_team-IsConsistent :
    (tokens : Map ℤ TokenEntry) (f : Rbac) (o : Option IdPayload) (i : ℕ)
    → IsConsistent tokens f
    → IsConsistent tokens (apply_delete_team f o i).state
unfolding apply_delete_team
delete_team-IsConsistent tokens f none i c = c
delete_team-IsConsistent tokens f (some p) i c = elim (Bool-cases (is_zero p.id)) [
  | inl h ↦ rw h (inc_rejected_rbac-IsConsistent c)
  | inr h ↦ rw h (delete_team_found-IsConsistent tokens f p.id _ refl c)
]
