-- ===== src/Fsm/State.antt =====
-- ClusterFSM and its Apply (internal/cluster/raft/fsm.go): the command of a log entry is decoded and
-- handed to its apply function.
use iot_edge_db.Prelude.{ℕ, Option, none, some, List, [], ◌∷◌, if◌then◌else◌, GoString, ℤ, is_zero}
use iot_edge_db.GoMap.{get, int_key}
use iot_edge_db.Types.{
  TokenEntry, DeleteFilePayload, RegisterFilePayload, UpdateFilePayload, IdPayload, Outcome, fail,
  lift, unmarshal_failed, unknown_command,
}
use iot_edge_db.Nodes.{
  NodeTable, new_node_table, apply_add_node, apply_remove_node, apply_update_node,
  apply_update_node_state, apply_promote_writer, apply_demote_writer, apply_assign_compactor,
}
use iot_edge_db.Manifest.State.{
  Manifest, new_manifest, apply_register_file_struct, apply_update_file_struct,
  apply_delete_file_struct,
}
use iot_edge_db.Manifest.Batch.{apply_batch_file_ops}
use iot_edge_db.Tokens.State.{
  Tokens, new_tokens, apply_create_token, apply_update_token, apply_revoke_token, delete_token,
  apply_rotate_token,
}
use iot_edge_db.Rbac.State.{Rbac, new_rbac}
use iot_edge_db.Rbac.Cascade.{cascade_members_of_token}
use iot_edge_db.Rbac.Organizations.{
  apply_create_organization, apply_update_organization, apply_delete_organization,
}
use iot_edge_db.Rbac.Teams.{apply_create_team, apply_update_team, apply_delete_team}
use iot_edge_db.Rbac.Roles.{apply_create_role, apply_update_role, apply_delete_role}
use iot_edge_db.Rbac.Members.{
  apply_create_measurement_permission, apply_delete_measurement_permission, apply_add_token_to_team,
  apply_remove_token_from_team,
}
use iot_edge_db.Fsm.Commands.{
  Codec, Command, CommandType, command_type, command_add_node, command_remove_node,
  command_update_node, command_update_node_state, command_promote_writer, command_demote_writer,
  command_register_file, command_delete_file, command_assign_compactor, command_batch_file_ops,
  command_update_file, command_create_token, command_update_token, command_revoke_token,
  command_delete_token, command_rotate_token, command_create_organization,
  command_update_organization, command_delete_organization, command_create_team,
  command_update_team, command_delete_team, command_create_role, command_update_role,
  command_delete_role, command_create_measurement_permission, command_delete_measurement_permission,
  command_add_token_to_team, command_remove_token_from_team,
}

pub record ClusterFsm : Type 0 where
  pub node_table : NodeTable
  pub manifest : Manifest
  pub auth : Tokens
  pub rbac : Rbac

abbrev pub new_cluster_fsm : ClusterFsm
new_cluster_fsm = record {
  node_table = new_node_table;
  manifest = new_manifest;
  auth = new_tokens;
  rbac = new_rbac;
}

-- An apply function of one part runs on the whole state.
abbrev pub on_nodes : ClusterFsm → Outcome NodeTable → Outcome ClusterFsm
on_nodes f r = lift (λ s. record f { node_table = s }) r

abbrev pub on_manifest : ClusterFsm → Outcome Manifest → Outcome ClusterFsm
on_manifest f r = lift (λ s. record f { manifest = s }) r

abbrev pub on_auth : ClusterFsm → Outcome Tokens → Outcome ClusterFsm
on_auth f r = lift (λ s. record f { auth = s }) r

abbrev pub on_rbac : ClusterFsm → Outcome Rbac → Outcome ClusterFsm
on_rbac f r = lift (λ s. record f { rbac = s }) r

-- applyRegisterFile, applyUpdateFile and applyDeleteFile: decode, then the struct form.
abbrev pub apply_register_file : Manifest → Option RegisterFilePayload → ℕ → Outcome Manifest
apply_register_file m none log_index = fail m unmarshal_failed
apply_register_file m (some p) log_index = apply_register_file_struct m p log_index

abbrev pub apply_update_file : Manifest → Option UpdateFilePayload → ℕ → Outcome Manifest
apply_update_file m none log_index = fail m unmarshal_failed
apply_update_file m (some p) log_index = apply_update_file_struct m p log_index

abbrev pub apply_delete_file : Manifest → Option DeleteFilePayload → Outcome Manifest
apply_delete_file m none = fail m unmarshal_failed
apply_delete_file m (some p) = apply_delete_file_struct m p

-- A token that exists takes its memberships with it.
abbrev pub rbac_after_delete : Rbac → ℤ → Option TokenEntry → Rbac
rbac_after_delete f id none = f
rbac_after_delete f id (some entry) = cascade_members_of_token f id

unfoldable pub apply_delete_token : ClusterFsm → Option IdPayload → Outcome ClusterFsm
unfolding delete_token
apply_delete_token f none = on_auth f (delete_token f.auth none)
apply_delete_token f (some p) =
    let r = delete_token f.auth (some p) in
    let rbac' =
      if is_zero p.id then f.rbac else rbac_after_delete f.rbac p.id (get f.auth.tokens p.id) in
    lift (λ s. record f { auth = s; rbac = rbac' }) r

-- The switch of Apply.
unfoldable pub dispatch : Codec → ClusterFsm → CommandType → GoString → ℕ → Outcome ClusterFsm
unfolding apply_delete_token
dispatch codec f command_add_node b i = on_nodes f (apply_add_node f.node_table (codec.add_node b))
dispatch codec f command_remove_node b i =
    on_nodes f (apply_remove_node f.node_table (codec.remove_node b))
dispatch codec f command_update_node b i =
    on_nodes f (apply_update_node f.node_table (codec.update_node b))
dispatch codec f command_update_node_state b i =
    on_nodes f (apply_update_node_state f.node_table (codec.update_node_state b))
dispatch codec f command_promote_writer b i =
    on_nodes f (apply_promote_writer f.node_table (codec.promote_writer b))
dispatch codec f command_demote_writer b i =
    on_nodes f (apply_demote_writer f.node_table (codec.demote_writer b))
dispatch codec f command_register_file b i =
    on_manifest f (apply_register_file f.manifest (codec.files.register_file b) i)
dispatch codec f command_delete_file b i =
    on_manifest f (apply_delete_file f.manifest (codec.files.delete_file b))
dispatch codec f command_assign_compactor b i =
    on_nodes f (apply_assign_compactor f.node_table (codec.assign_compactor b))
dispatch codec f command_batch_file_ops b i =
    on_manifest f (apply_batch_file_ops codec.files f.manifest (codec.batch_file_ops b) i)
dispatch codec f command_update_file b i =
    on_manifest f (apply_update_file f.manifest (codec.files.update_file b) i)
dispatch codec f command_create_token b i =
    on_auth f (apply_create_token f.auth (codec.create_token b) i)
dispatch codec f command_update_token b i =
    on_auth f (apply_update_token f.auth (codec.update_token b) i)
dispatch codec f command_revoke_token b i =
    on_auth f (apply_revoke_token f.auth (codec.revoke_token b) i)
dispatch codec f command_delete_token b i = apply_delete_token f (codec.delete_token b)
dispatch codec f command_rotate_token b i =
    on_auth f (apply_rotate_token f.auth (codec.rotate_token b) i)
dispatch codec f command_create_organization b i =
    on_rbac f (apply_create_organization f.rbac (codec.create_organization b) i)
dispatch codec f command_update_organization b i =
    on_rbac f (apply_update_organization f.rbac (codec.update_organization b) i)
dispatch codec f command_delete_organization b i =
    on_rbac f (apply_delete_organization f.rbac (codec.delete_organization b) i)
dispatch codec f command_create_team b i =
    on_rbac f (apply_create_team f.rbac (codec.create_team b) i)
dispatch codec f command_update_team b i =
    on_rbac f (apply_update_team f.rbac (codec.update_team b) i)
dispatch codec f command_delete_team b i =
    on_rbac f (apply_delete_team f.rbac (codec.delete_team b) i)
dispatch codec f command_create_role b i =
    on_rbac f (apply_create_role f.rbac (codec.create_role b) i)
dispatch codec f command_update_role b i =
    on_rbac f (apply_update_role f.rbac (codec.update_role b) i)
dispatch codec f command_delete_role b i =
    on_rbac f (apply_delete_role f.rbac (codec.delete_role b) i)
dispatch codec f command_create_measurement_permission b i =
    on_rbac f (apply_create_measurement_permission f.rbac (codec.create_measurement_permission b) i)
dispatch codec f command_delete_measurement_permission b i =
    on_rbac f (apply_delete_measurement_permission f.rbac (codec.delete_measurement_permission b) i)
dispatch codec f command_add_token_to_team b i =
    on_rbac f (apply_add_token_to_team f.auth.tokens f.rbac (codec.add_token_to_team b) i)
dispatch codec f command_remove_token_from_team b i =
    on_rbac f (apply_remove_token_from_team f.rbac (codec.remove_token_from_team b) i)

abbrev pub dispatch_known :
    Codec → ClusterFsm → Option CommandType → GoString → ℕ → Outcome ClusterFsm
dispatch_known codec f none b i = fail f unknown_command
dispatch_known codec f (some c) b i = dispatch codec f c b i

abbrev pub apply_command : Codec → ClusterFsm → Option Command → ℕ → Outcome ClusterFsm
apply_command codec f none i = fail f unmarshal_failed
apply_command codec f (some cmd) i = dispatch_known codec f (command_type cmd.type) cmd.payload i

-- raft.Log's Data and Index.
pub record Log : Type 0 where
  pub data' : GoString
  pub index : ℕ

unfoldable pub apply : Codec → ClusterFsm → Log → Outcome ClusterFsm
apply codec f log = apply_command codec f (codec.command log.data') log.index

-- The state after a log, as Raft applies it.
unfoldable pub run : Codec → ClusterFsm → List Log → ClusterFsm
unfolding apply
run codec f [] = f
run codec f (log ∷ logs) = run codec (apply codec f log).state logs
