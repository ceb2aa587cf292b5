-- ===== src/Tests/Restored.antt =====
-- The theorems about Snapshot and Restore, at concrete states.
use iot_edge_db.Prelude.{
  ◌≡◌, refl, pos, true, none, some, [], ◌∷◌, int_dec, str_dec, arith, is_some, elem, int64,
}
use iot_edge_db.GoMap.{empty, get, put, remove, at, add, every, every-get, keys, str_key, int_key}
use iot_edge_db.Types.{BatchFileOpsPayload, TokenEntry}
use iot_edge_db.Manifest
use iot_edge_db.Manifest.Path.{validate_manifest_path}
use iot_edge_db.Manifest.State.{Manifest, new_manifest, apply_register_file_struct}
use iot_edge_db.Manifest.Batch.{apply_batch_file_ops}
use iot_edge_db.Manifest.Consistent.{new_manifest-IsConsistent}
use iot_edge_db.Manifest.Preserve.{batch-IsConsistent}
use iot_edge_db.Rbac.State.{
  new_rbac, validate_organization_entry, validate_team_entry, validate_role_entry,
  validate_measurement_permission_entry, validate_token_membership_entry,
}
use iot_edge_db.Tokens.State.{stamped, validate_token_entry, apply_update_token}
use iot_edge_db.Tokens.Permissions.{validate_permission_string}
use iot_edge_db.Rbac.Tables.{IsConsistent}
use iot_edge_db.Fsm.State.{ClusterFsm, new_cluster_fsm, apply, dispatch}
use iot_edge_db.Fsm.Consistent.{IsAuthConsistent}
use iot_edge_db.Snapshot.{FsmSnapshot, snapshot}
use iot_edge_db.Snapshot.Restore.{passes, restore, restore_tokens, restore_rbac, restore_manifest}
use iot_edge_db.Snapshot.Consistent.{
  snapshot-HasSoundTokens, restore_rbac-IsConsistent, restore-IsAuthConsistent,
  restore_manifest-IsConsistent, snapshot-keyed,
}
use iot_edge_db.Snapshot.Rows.{HasValidRows}
use iot_edge_db.Snapshot.RoundTrip.{SameTables, restore-snapshot}
use iot_edge_db.Snapshot.Lost.{nameless, update_token-lost}
use iot_edge_db.Snapshot.Reached.{Reached, start, applied, restarted, IsHealthy, Reached-IsHealthy}
use iot_edge_db.Rbac.Organizations.{apply_create_organization}
use iot_edge_db.Rbac.Teams.{apply_create_team}
use iot_edge_db.Fsm.Commands.{command_type_from}
use iot_edge_db.Tests.Data.{sample_codec, entry, agent_token, acme, ops_team, file_codec, cpu_file}
use iot_edge_db.Tests.History.{state_6, state_6-IsAuthConsistent}

-- Two organizations with one name, a nil one, and a team whose organization is unknown.
corrupted : FsmSnapshot
unfolding snapshot put
corrupted = record (snapshot new_cluster_fsm) {
  organizations = put (put (put empty (pos 1) (some acme)) (pos 2) (some acme)) (pos 3) none;
  teams = put empty (pos 4) (some (record ops_team { organization_id = pos 9 }));
}

restore_rbac-IsConsistent_example : IsConsistent empty (restore_rbac new_rbac empty corrupted)
restore_rbac-IsConsistent_example = restore_rbac-IsConsistent new_rbac empty corrupted

-- One of the two is kept, and the rest is counted.
quarantine :
    (keys (restore_rbac new_rbac empty corrupted).organizations ≡ pos 2 ∷ [])
    × ((restore_rbac new_rbac empty corrupted).rejected_rbac ≡ 3)
unfolding restore_rbac corrupted get put remove at add empty str_dec int_dec
    validate_organization_entry validate_team_entry keys
quarantine = (refl, refl)

restore-IsAuthConsistent_example :
    IsAuthConsistent (restore new_cluster_fsm (some (snapshot state_6))).state
restore-IsAuthConsistent_example =
    restore-IsAuthConsistent new_cluster_fsm (snapshot state_6)
      (snapshot-HasSoundTokens state_6 state_6-IsAuthConsistent)

state_6-HasValidRows : HasValidRows state_6
unfolding state_6 every keys get put remove at add empty str_dec int_dec validate_organization_entry
    validate_team_entry validate_role_entry validate_measurement_permission_entry
    validate_token_membership_entry validate_token_entry validate_permission_string elem
state_6-HasValidRows = record {
  token = λ id e h.
      ground
        (arith, every-get (λ e. passes (validate_token_entry e)) state_6.auth.tokens id e refl h);
  organization = λ id e h. ground (
    arith,
    every-get (λ e. passes (validate_organization_entry e)) state_6.rbac.organizations id e refl h,
  );
  team = λ id e h.
      ground
        (arith, every-get (λ e. passes (validate_team_entry e)) state_6.rbac.teams id e refl h);
  role = λ id e h.
      ground
        (arith, every-get (λ e. passes (validate_role_entry e)) state_6.rbac.roles id e refl h);
  permission = λ id e h. ground (
    arith,
    every-get (λ e. passes (validate_measurement_permission_entry e))
        state_6.rbac.measurement_permissions id e refl h,
  );
  membership = λ id e h. ground (
    arith,
    every-get (λ e. passes (validate_token_membership_entry e)) state_6.rbac.token_memberships id e
        refl h,
  );
}

abbrev one_register : BatchFileOpsPayload
one_register = record { ops = record { type = 7; payload = [] } ∷ [] }

abbrev registered : Manifest
registered = (apply_batch_file_ops file_codec new_manifest (some one_register) 7).state

-- The authorization state of `state_6`, beside a manifest with one file.
with_file : ClusterFsm
with_file = record state_6 { manifest = registered }

registered-IsConsistent : Manifest.Consistent.IsConsistent registered
registered-IsConsistent =
    batch-IsConsistent file_codec new_manifest (some one_register) 7 new_manifest-IsConsistent

with_file-IsAuthConsistent : IsAuthConsistent with_file
unfolding with_file
with_file-IsAuthConsistent = record {
  auth = state_6-IsAuthConsistent.auth;
  rbac = state_6-IsAuthConsistent.rbac;
}

with_file-HasValidRows : HasValidRows with_file
unfolding with_file
with_file-HasValidRows = record {
  token = state_6-HasValidRows.token;
  organization = state_6-HasValidRows.organization;
  team = state_6-HasValidRows.team;
  role = state_6-HasValidRows.role;
  permission = state_6-HasValidRows.permission;
  membership = state_6-HasValidRows.membership;
}

restore-snapshot_example :
    SameTables with_file (restore new_cluster_fsm (some (snapshot with_file))).state
unfolding with_file apply_batch_file_ops
restore-snapshot_example =
    restore-snapshot new_cluster_fsm with_file with_file-IsAuthConsistent registered-IsConsistent
      with_file-HasValidRows

-- The file is there again.
restored_file :
    is_some (get (restore_manifest new_manifest (snapshot with_file)).files cpu_file.path) ≡ true
unfolding with_file restore_manifest snapshot apply_batch_file_ops get put empty str_dec
    validate_manifest_path keys apply_register_file_struct
restored_file = refl

restore_manifest-IsConsistent_example :
    Manifest.Consistent.IsConsistent (restore_manifest new_manifest (snapshot with_file))
unfolding with_file apply_batch_file_ops
restore_manifest-IsConsistent_example =
    restore_manifest-IsConsistent new_manifest (snapshot with_file)
      (snapshot-keyed with_file registered-IsConsistent)

-- The token that `state_6` holds.
abbrev stored_agent : TokenEntry
stored_agent = stamped agent_token 5

agent_at_5 : get state_6.auth.tokens (pos 5) ≡ some stored_agent
unfolding state_6 get put remove int_dec int64
agent_at_5 = refl

no_nameless : get state_6.auth.tokens_by_name [] ≡ none
unfolding state_6 get put remove str_dec
no_nameless = refl

update_token-lost_example :
    let r = apply_update_token state_6.auth (some (nameless (pos 5))) 9 in
    (r.error ≡ none)
    × (is_some (get r.state.tokens (pos 5)) ≡ true)
    × (get
          (restore new_cluster_fsm
            (some (snapshot (record state_6 { auth = r.state })))).state.auth.tokens
          (pos 5)
        ≡ none)
update_token-lost_example =
    update_token-lost new_cluster_fsm state_6 (pos 5) stored_agent 9 refl agent_at_5 no_nameless

-- An organization is created, the node restarts, and a team is created.
restarted_state : ClusterFsm
restarted_state =
    (restore new_cluster_fsm
      (some (snapshot (apply sample_codec new_cluster_fsm (entry 1 17)).state))).state

short_life : Reached sample_codec 2 (apply sample_codec restarted_state (entry 2 20)).state
unfolding restarted_state
short_life =
    applied 1 restarted_state (entry 2 20)
      (restarted 1 (apply sample_codec new_cluster_fsm (entry 1 17)).state new_cluster_fsm
        (applied 0 new_cluster_fsm (entry 1 17) start (omega arith) (omega arith)))
      (omega arith) (omega arith)

Reached-IsHealthy_example : IsHealthy 2 (apply sample_codec restarted_state (entry 2 20)).state
Reached-IsHealthy_example = Reached-IsHealthy sample_codec short_life

-- The team is stored, since its organization has survived the restart.
restarted_team :
    is_some (get (apply sample_codec restarted_state (entry 2 20)).state.rbac.teams (pos 2)) ≡ true
unfolding restarted_state apply dispatch command_type_from int64 get put remove at add empty int_dec
    str_dec apply_create_organization apply_create_team validate_organization_entry
    validate_team_entry restore restore_rbac restore_tokens snapshot keys
restarted_team = refl
