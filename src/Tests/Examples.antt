-- ===== src/Tests/Examples.antt =====
-- The theorems about the whole state machine and about the authorization state, at the states that a log
-- reaches.
use iot_edge_db.Prelude.{
  List, All, ◌≢◌, arith, int64, str_dec, ◌≡◌, refl, none, some, pos, ℤ, [], ◌∷◌, bytes, false,
  if◌then◌else◌,
}
use iot_edge_db.GoMap.{get, remove, int_key, str_key}
use iot_edge_db.Fsm.Refused.{SameRbac, apply-SameRbac}
use iot_edge_db.Types.{name_exists, IdPayload, OrganizationEntry, UpdateNamedPayload}
use iot_edge_db.Tokens.State.{apply_update_token}
use iot_edge_db.Tokens.Preserve.{update_token-IsConsistent}
use iot_edge_db.Tokens.Consistent
use iot_edge_db.Manifest.Consistent as ManifestConsistent
use iot_edge_db.Rbac.Tables
use iot_edge_db.Rbac.Tables.{member_of_token}
use iot_edge_db.Rbac.Cascade.{cascade_members_of_token}
use iot_edge_db.Rbac.Organizations.{apply_update_organization, apply_delete_organization}
use iot_edge_db.Rbac.Teams.{apply_update_team, apply_delete_team}
use iot_edge_db.Rbac.Teardown.{
  in_org, delete_organization-IsConsistent, delete_team-IsConsistent, delete_organization-teams,
}
use iot_edge_db.Rbac.OrganizationKeeps.{update_organization-IsConsistent}
use iot_edge_db.Rbac.TeamKeeps.{update_team-IsConsistent}
use iot_edge_db.Rbac.MemberRows.{
  cascade_members_of_token-IsConsistent, cascade_members_of_token-memberships,
}
use iot_edge_db.Nodes.Writers.{IsSinglePrimary}
use iot_edge_db.Fsm.Commands.{command_type_from}
use iot_edge_db.Fsm.SinglePrimary.{IsPlain, run_nodes-IsSinglePrimary}
use iot_edge_db.Fsm.Ids.{apply-IsFresh}
use iot_edge_db.Fsm.State.{Log, apply, run, new_cluster_fsm}
use iot_edge_db.Fsm.Consistent.{IsFresh, IsAuthConsistent, apply-IsAuthConsistent}
use iot_edge_db.Fsm.Keeps.{run_manifest-IsConsistent}
use iot_edge_db.Tests.Data.{sample_codec, entry, acme}
use iot_edge_db.Tests.History.{state_6, state_6-IsFresh, state_6-IsAuthConsistent}

abbrev org_1 : IdPayload
org_1 = record { id = pos 1 }

abbrev team_2 : IdPayload
team_2 = record { id = pos 2 }

abbrev renaming : UpdateNamedPayload
renaming = record {
  id = pos 1;
  name = bytes "new";
  description = [];
  enabled = false;
  updated_at_unix_nano = pos 0;
  changed_fields = bytes "name" ∷ bytes "enabled" ∷ [];
}

-- Entry 7 deletes the organization.
apply-IsAuthConsistent_example : IsAuthConsistent (apply sample_codec state_6 (entry 7 19)).state
apply-IsAuthConsistent_example =
    apply-IsAuthConsistent sample_codec state_6 (entry 7 19) state_6-IsAuthConsistent
      state_6-IsFresh

run_manifest-IsConsistent_example :
    ManifestConsistent.IsConsistent
      (run sample_codec new_cluster_fsm (entry 1 7 ∷ entry 2 10 ∷ entry 3 11 ∷ [])).manifest
run_manifest-IsConsistent_example =
    run_manifest-IsConsistent sample_codec (entry 1 7 ∷ entry 2 10 ∷ entry 3 11 ∷ [])

delete_organization-IsConsistent_example :
    Tables.IsConsistent state_6.auth.tokens
      (apply_delete_organization state_6.rbac (some org_1) 7).state
delete_organization-IsConsistent_example =
    delete_organization-IsConsistent state_6.auth.tokens state_6.rbac (some org_1) 7
      state_6-IsAuthConsistent.rbac

abbrev stored_acme : OrganizationEntry
stored_acme = record acme { id = pos 1; updated_at_unix_nano = pos 7; lsn = 1 }

found_acme : get state_6.rbac.organizations (pos 1) ≡ some stored_acme
unfolding state_6
found_acme = refl

delete_organization-teams_example :
    let r = apply_delete_organization state_6.rbac (some org_1) 7 in
    (r.error ≡ none)
    × (get r.state.organizations (pos 1) ≡ none)
    × ((x : ℤ)
        → get r.state.teams x
          ≡ (if in_org (pos 1) (get state_6.rbac.teams x) then none else get state_6.rbac.teams x))
delete_organization-teams_example =
    delete_organization-teams state_6.auth.tokens state_6.rbac org_1 7 stored_acme
      state_6-IsAuthConsistent.rbac refl found_acme

delete_team-IsConsistent_example :
    Tables.IsConsistent state_6.auth.tokens (apply_delete_team state_6.rbac (some team_2) 7).state
delete_team-IsConsistent_example =
    delete_team-IsConsistent state_6.auth.tokens state_6.rbac (some team_2) 7
      state_6-IsAuthConsistent.rbac

update_organization-IsConsistent_example :
    Tables.IsConsistent state_6.auth.tokens
      (apply_update_organization state_6.rbac (some renaming) 7).state
update_organization-IsConsistent_example =
    update_organization-IsConsistent state_6.auth.tokens state_6.rbac state_6-IsAuthConsistent.rbac
      (some renaming) 7

update_team-IsConsistent_example :
    Tables.IsConsistent state_6.auth.tokens
      (apply_update_team state_6.rbac (some (record renaming { id = pos 2 })) 7).state
update_team-IsConsistent_example =
    update_team-IsConsistent state_6.auth.tokens state_6.rbac state_6-IsAuthConsistent.rbac
      (some (record renaming { id = pos 2 })) 7

cascade_members_of_token-IsConsistent_example :
    Tables.IsConsistent
      (remove state_6.auth.tokens (pos 5))
      (cascade_members_of_token state_6.rbac (pos 5))
cascade_members_of_token-IsConsistent_example =
    cascade_members_of_token-IsConsistent state_6.auth.tokens state_6.rbac (pos 5)
      state_6-IsAuthConsistent.rbac

cascade_members_of_token-memberships_example :
    get (cascade_members_of_token state_6.rbac (pos 5)).token_memberships (pos 6) ≡ (
      if member_of_token (pos 5) (get state_6.rbac.token_memberships (pos 6))
      then none
      else get state_6.rbac.token_memberships (pos 6))
cascade_members_of_token-memberships_example =
    cascade_members_of_token-memberships state_6.auth.tokens state_6.rbac (pos 5) (pos 6)
      state_6-IsAuthConsistent.rbac

update_token-IsConsistent_example :
    Consistent.IsConsistent
      (apply_update_token state_6.auth
        (some (record {
          id = pos 5;
          name = bytes "b";
          description = [];
          permissions = bytes "admin";
          expires_at_unix_nano = pos 0;
          changed_fields = bytes "name" ∷ [];
        }))
        7).state
update_token-IsConsistent_example =
    update_token-IsConsistent state_6-IsAuthConsistent.auth
      (some (record {
        id = pos 5;
        name = bytes "b";
        description = [];
        permissions = bytes "admin";
        expires_at_unix_nano = pos 0;
        changed_fields = bytes "name" ∷ [];
      }))
      7

seven_is_not_eight : int64 7 ≢ pos 8
unfolding int64
seven_is_not_eight e = ground (arith, e)

state_6-IsFresh_8 : IsFresh state_6 (pos 8)
unfolding state_6
state_6-IsFresh_8 = record {
  token = refl;
  rbac = record {
    organization = refl;
    team = refl;
    role = refl;
    permission = refl;
    membership = refl;
  };
}

apply-IsFresh_example : IsFresh (apply sample_codec state_6 (entry 7 17)).state (pos 8)
apply-IsFresh_example =
    apply-IsFresh sample_codec state_6 (entry 7 17) (pos 8) seven_is_not_eight state_6-IsFresh_8

-- A node joins and is promoted.
abbrev joining : List Log
joining = entry 1 1 ∷ entry 2 5 ∷ []

joining-IsPlain : All (IsPlain sample_codec) joining
unfolding str_dec command_type_from
joining-IsPlain = (refl, (refl, tt))

run_nodes-IsSinglePrimary_example :
    IsSinglePrimary (run sample_codec new_cluster_fsm joining).node_table
run_nodes-IsSinglePrimary_example = run_nodes-IsSinglePrimary sample_codec joining joining-IsPlain

-- The name of the organization is taken.
name_is_taken : (apply sample_codec state_6 (entry 7 17)).error ≡ some name_exists
unfolding state_6
name_is_taken = refl

apply-SameRbac_example : SameRbac state_6.rbac (apply sample_codec state_6 (entry 7 17)).state.rbac
apply-SameRbac_example = apply-SameRbac sample_codec state_6 (entry 7 17) name_is_taken

-- One file is registered.
abbrev one_file : List Log
one_file = entry 1 7 ∷ []
