-- ===== src/Rbac/TeamKeeps.antt =====
-- The commands that create and update teams (internal/cluster/raft/fsm_rbac.go), and the invariant of the
-- RBAC tables.
use iot_edge_db.Prelude.{
  none_of_is_some, ◌≡◌, refl, ap, ◌∙◌, true, Option, none, some, is_some, ℕ, ℤ, int64, GoString,
  is_zero, Bool-cases, inl, inr,
}
use iot_edge_db.GoMap.{Map, get, put, at, int_key, str_key, Index}
use iot_edge_db.Types.{TokenEntry, TeamEntry, UpdateNamedPayload, CreateTeamPayload, Error}
use iot_edge_db.Rbac.State.{Rbac}
use iot_edge_db.Rbac.Staging.{Staged}
use iot_edge_db.Rbac.Staged.{kept, renamed, IsStagedIfAny, stage_all-IsStaged}
use iot_edge_db.Rbac.Teams
use iot_edge_db.Rbac.Tables.{inc_rejected_rbac-IsConsistent, IsConsistent, TeamsOk}
use iot_edge_db.Rbac.Rows.{TeamsOk-add, TeamsOk-restate, TeamsOk-rename, RolesOk-put_team}
use iot_edge_db.Rbac.MemberRows.{MembersOk-put_team}

-- A state with other teams.
abbrev with_teams : Rbac → Map ℤ TeamEntry → Index ℤ GoString ℤ → Rbac
with_teams f teams by_org = record f { teams = teams; teams_by_org = by_org }

module _ (tokens : Map ℤ TokenEntry) (f : Rbac) (c : IsConsistent tokens f) where
  put_team-IsConsistent :
      (i : ℤ) (e : TeamEntry) (by_org : Index ℤ GoString ℤ)
      → TeamsOk f.organizations (put f.teams i e) by_org
      → IsConsistent tokens (with_teams f (put f.teams i e) by_org)
  put_team-IsConsistent i e by_org t = record {
    orgs = c.orgs;
    teams = t;
    below = record {
      roles = RolesOk-put_team f.teams f.roles f.roles_by_team c.below.roles i e;
      perms = c.below.perms;
      members =
          MembersOk-put_team tokens f.teams f.token_memberships f.token_memberships_by_pair
            f.token_memberships_by_token f.token_memberships_by_team c.below.members i e;
    };
  }

  insert_team-IsConsistent :
      (e : TeamEntry) (o : Option ℤ)
      → at f.teams_by_org e.organization_id e.name ≡ o
      → get f.teams e.id ≡ none
      → is_some (get f.organizations e.organization_id) ≡ true
      → IsConsistent tokens (Teams.insert_team f e o).state
  insert_team-IsConsistent e (some x) h fresh up = inc_rejected_rbac-IsConsistent c
  insert_team-IsConsistent e none h fresh up =
      put_team-IsConsistent e.id e _
        (TeamsOk-add f.organizations f.teams f.teams_by_org c.teams e fresh h up)

  created_team-IsConsistent :
      (t : TeamEntry) (i : ℕ) (v : Option Error)
      → get f.teams (int64 i) ≡ none
      → IsConsistent tokens (Teams.create_validated f t i v).state
  created_team-IsConsistent t i (some x) fresh = inc_rejected_rbac-IsConsistent c
  created_team-IsConsistent t i none fresh = elim (Bool-cases (is_zero t.created_at_unix_nano)) [
    | inl h ↦ rw h (inc_rejected_rbac-IsConsistent c)
    | inr h ↦ elim (Bool-cases (is_some (get f.organizations t.organization_id))) [
      | inl k ↦ rw (h, k) (insert_team-IsConsistent (Teams.stamped_team t i) _ refl fresh k)
      | inr k ↦ rw (h, k) (inc_rejected_rbac-IsConsistent c)
    ]
  ]

  -- In a consistent state in which the log index is not yet a team's id, creating a team leaves the RBAC
  -- indices exact and no orphan, whatever the command holds.
  pub create_team-IsConsistent :
      (p : Option CreateTeamPayload) (i : ℕ)
      → get f.teams (int64 i) ≡ none
      → IsConsistent tokens (Teams.apply_create_team f p i).state
  unfolding Teams.apply_create_team
  create_team-IsConsistent none i fresh = c
  create_team-IsConsistent (some p) i fresh = created_team-IsConsistent p.team i _ fresh

  commit_team-IsConsistent :
      (p : UpdateNamedPayload) (i : ℕ) (e : TeamEntry) (s : Option Staged)
      → get f.teams p.id ≡ some e
      → IsStagedIfAny p e.name (is_some (at f.teams_by_org e.organization_id p.name)) s
      → IsConsistent tokens (Teams.commit_team f p i e s).state
  commit_team-IsConsistent p i e none h g = inc_rejected_rbac-IsConsistent c
  commit_team-IsConsistent p i e (some s) h (kept a b) = rw a (
      put_team-IsConsistent p.id _ f.teams_by_org
        (TeamsOk-restate f.organizations f.teams f.teams_by_org c.teams p.id e _ h b refl))
  commit_team-IsConsistent p i e (some s) h (renamed a b g) = rw a (
      put_team-IsConsistent p.id _ _ (
        TeamsOk-rename f.organizations f.teams f.teams_by_org c.teams p.id e _ h
          (ap (at f.teams_by_org e.organization_id) b ∙ none_of_is_some _ g) refl))

  update_team_found-IsConsistent :
      (p : UpdateNamedPayload) (i : ℕ) (o : Option TeamEntry)
      → get f.teams p.id ≡ o
      → IsConsistent tokens (Teams.update_team_found f p i o).state
  update_team_found-IsConsistent p i none h = inc_rejected_rbac-IsConsistent c
  update_team_found-IsConsistent p i (some e) h =
      commit_team-IsConsistent p i e _ h
        (stage_all-IsStaged p e.name _ p.changed_fields _ (kept refl refl))

  update_team_checked-IsConsistent :
      (p : UpdateNamedPayload) (i : ℕ) (v : Option Error)
      → IsConsistent tokens (Teams.update_team_checked f p i v).state
  update_team_checked-IsConsistent p i (some x) = inc_rejected_rbac-IsConsistent c
  update_team_checked-IsConsistent p i none = update_team_found-IsConsistent p i _ refl

  -- In a consistent state, updating a team leaves the RBAC indices exact and no orphan, whatever fields the
  -- command names, how often, and in which order.
  pub update_team-IsConsistent :
      (p : Option UpdateNamedPayload) (i : ℕ)
      → IsConsistent tokens (Teams.apply_update_team f p i).state
  unfolding Teams.apply_update_team
  update_team-IsConsistent none i = c
  update_team-IsConsistent (some p) i = elim (Bool-cases (is_zero p.id)) [
    | inl h ↦ rw h (inc_rejected_rbac-IsConsistent c)
    | inr h ↦ rw h (update_team_checked-IsConsistent p i _)
  ]
