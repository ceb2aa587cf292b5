-- ===== src/Fsm/SinglePrimary.antt =====
-- The primary writer over a whole log (Apply in internal/cluster/raft/fsm.go).
use iot_edge_db.Prelude.{
  ℕ, ◌≡◌, Bool, true, not, Option, none, some, All, List, [], ◌∷◌, GoString, arith,
}
use iot_edge_db.GoMap.{str_key}
use iot_edge_db.Types.{AddNodePayload, UpdateNodePayload, IdPayload}
use iot_edge_db.Nodes.{primary, same}
use iot_edge_db.Nodes.Writers.{
  IsSinglePrimary, promote-IsSinglePrimary, demote-IsSinglePrimary, remove-IsSinglePrimary,
  add-IsSinglePrimary, update-IsSinglePrimary, update_state-IsSinglePrimary, assign-IsSinglePrimary,
  new_node_table-IsSinglePrimary,
}
use iot_edge_db.Fsm.Commands.{
  Codec, Command, CommandType, command_type, command_add_node, command_remove_node,
  command_update_node, command_update_node_state, command_promote_writer, command_demote_writer,
  command_register_file, command_delete_file, command_assign_compactor, command_batch_file_ops,
  command_update_file, command_create_token, command_update_token, command_revoke_token,
  command_delete_token, command_rotate_token, command_create_organization,
  command_update_organization, command_delete_organization, command_create_team,
  command_update_team, command_delete_team, command_create_role, command_update_role,
  command_delete_role, command_create_measurement_permission, command_delete_measurement_permission,
  command_add_token_to_team, command_remove_token_from_team,
}
use iot_edge_db.Fsm.State.{
  ClusterFsm, new_cluster_fsm, apply_delete_token, dispatch, dispatch_known, apply_command, Log,
  apply, run,
}

-- The node of a payload does not call itself primary.
abbrev pub is_plain_add : Option AddNodePayload → Bool
is_plain_add none = true
is_plain_add (some p) = not (same p.node.writer_state primary)

abbrev pub is_plain_update : Option UpdateNodePayload → Bool
is_plain_update none = true
is_plain_update (some p) = not (same p.node.writer_state primary)

abbrev pub is_plain_payload : Codec → Option CommandType → GoString → Bool
is_plain_payload codec (some command_add_node) b = is_plain_add (codec.add_node b)
is_plain_payload codec (some command_update_node) b = is_plain_update (codec.update_node b)
is_plain_payload codec _ b = true

abbrev pub is_plain_command : Codec → Option Command → Bool
is_plain_command codec none = true
is_plain_command codec (some cmd) = is_plain_payload codec (command_type cmd.type) cmd.payload

-- The entry does not add or update a node with a payload that calls it primary.
abbrev pub IsPlain : Codec → Log → Type 0
IsPlain codec log = is_plain_command codec (codec.command log.data') ≡ true

delete_token-IsSinglePrimary :
    (f : ClusterFsm) (p : Option IdPayload)
    → IsSinglePrimary f.node_table
    → IsSinglePrimary (apply_delete_token f p).state.node_table
unfolding apply_delete_token
delete_token-IsSinglePrimary f none c = c
delete_token-IsSinglePrimary f (some p) c = c

module _ (codec : Codec) where
  dispatch-IsSinglePrimary :
      (f : ClusterFsm) (t : CommandType) (b : GoString) (i : ℕ)
      → is_plain_payload codec (some t) b ≡ true
      → IsSinglePrimary f.node_table
      → IsSinglePrimary (dispatch codec f t b i).state.node_table
  unfolding dispatch
  dispatch-IsSinglePrimary f command_add_node b i plain c =
      add-IsSinglePrimary c (codec.add_node b) (λ p e. ground (arith, plain, e))
  dispatch-IsSinglePrimary f command_remove_node b i plain c =
      remove-IsSinglePrimary c (codec.remove_node b)
  dispatch-IsSinglePrimary f command_update_node b i plain c =
      update-IsSinglePrimary c (codec.update_node b) (λ p e. ground (arith, plain, e))
  dispatch-IsSinglePrimary f command_update_node_state b i plain c =
      update_state-IsSinglePrimary c (codec.update_node_state b)
  dispatch-IsSinglePrimary f command_promote_writer b i plain c =
      promote-IsSinglePrimary c (codec.promote_writer b)
  dispatch-IsSinglePrimary f command_demote_writer b i plain c =
      demote-IsSinglePrimary c (codec.demote_writer b)
  dispatch-IsSinglePrimary f command_register_file b i plain c = c
  dispatch-IsSinglePrimary f command_delete_file b i plain c = c
  dispatch-IsSinglePrimary f command_assign_compactor b i plain c =
      assign-IsSinglePrimary c (codec.assign_compactor b)
  dispatch-IsSinglePrimary f command_batch_file_ops b i plain c = c
  dispatch-IsSinglePrimary f command_update_file b i plain c = c
  dispatch-IsSinglePrimary f command_create_token b i plain c = c
  dispatch-IsSinglePrimary f command_update_token b i plain c = c
  dispatch-IsSinglePrimary f command_revoke_token b i plain c = c
  dispatch-IsSinglePrimary f command_delete_token b i plain c =
      delete_token-IsSinglePrimary f (codec.delete_token b) c
  dispatch-IsSinglePrimary f command_rotate_token b i plain c = c
  dispatch-IsSinglePrimary f command_create_organization b i plain c = c
  dispatch-IsSinglePrimary f command_update_organization b i plain c = c
  dispatch-IsSinglePrimary f command_delete_organization b i plain c = c
  dispatch-IsSinglePrimary f command_create_team b i plain c = c
  dispatch-IsSinglePrimary f command_update_team b i plain c = c
  dispatch-IsSinglePrimary f command_delete_team b i plain c = c
  dispatch-IsSinglePrimary f command_create_role b i plain c = c
  dispatch-IsSinglePrimary f command_update_role b i plain c = c
  dispatch-IsSinglePrimary f command_delete_role b i plain c = c
  dispatch-IsSinglePrimary f command_create_measurement_permission b i plain c = c
  dispatch-IsSinglePrimary f command_delete_measurement_permission b i plain c = c
  dispatch-IsSinglePrimary f command_add_token_to_team b i plain c = c
  dispatch-IsSinglePrimary f command_remove_token_from_team b i plain c = c

  dispatch_known-IsSinglePrimary :
      (f : ClusterFsm) (o : Option CommandType) (b : GoString) (i : ℕ)
      → is_plain_payload codec o b ≡ true
      → IsSinglePrimary f.node_table
      → IsSinglePrimary (dispatch_known codec f o b i).state.node_table
  dispatch_known-IsSinglePrimary f none b i plain c = c
  dispatch_known-IsSinglePrimary f (some t) b i plain c = dispatch-IsSinglePrimary f t b i plain c

  apply_command-IsSinglePrimary :
      (f : ClusterFsm) (o : Option Command) (i : ℕ)
      → is_plain_command codec o ≡ true
      → IsSinglePrimary f.node_table
      → IsSinglePrimary (apply_command codec f o i).state.node_table
  apply_command-IsSinglePrimary f none i plain c = c
  apply_command-IsSinglePrimary f (some cmd) i plain c =
      dispatch_known-IsSinglePrimary f (command_type cmd.type) cmd.payload i plain c

  run-IsSinglePrimary :
      (f : ClusterFsm) (logs : List Log)
      → All (IsPlain codec) logs
      → IsSinglePrimary f.node_table
      → IsSinglePrimary (run codec f logs).node_table
  unfolding run apply
  run-IsSinglePrimary f [] plain c = c
  run-IsSinglePrimary f (log ∷ logs) (plain, rest) c =
      run-IsSinglePrimary (apply codec f log).state logs rest
        (apply_command-IsSinglePrimary f (codec.command log.data') log.index plain c)

-- When no entry of a log adds or updates a node whose payload calls it primary, then after the log from the
-- empty state every node that calls itself primary is the one whose id is recorded, so that there is one at
-- most, and there is none while no id is recorded.
pub run_nodes-IsSinglePrimary :
    (codec : Codec) (logs : List Log)
    → All (IsPlain codec) logs
    → IsSinglePrimary (run codec new_cluster_fsm logs).node_table
run_nodes-IsSinglePrimary codec logs plain =
    run-IsSinglePrimary codec new_cluster_fsm logs plain new_node_table-IsSinglePrimary
