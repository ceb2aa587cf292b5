-- ===== src/Fsm/Keeps.antt =====
-- What every command of the log keeps (Apply in internal/cluster/raft/fsm.go).
use iot_edge_db.Prelude.{ℕ, Option, none, some, List, [], ◌∷◌, GoString}
use iot_edge_db.Manifest.State.{Manifest}
use iot_edge_db.Types.{IdPayload, RegisterFilePayload, UpdateFilePayload, DeleteFilePayload}
use iot_edge_db.Manifest.Consistent.{IsConsistent, new_manifest-IsConsistent}
use iot_edge_db.Manifest.Preserve.{
  register-IsConsistent, update-IsConsistent, delete-IsConsistent, batch-IsConsistent,
}
use iot_edge_db.Fsm.Commands.{
  Codec, Command, CommandType, command_type, command_add_node, command_remove_node,
  command_update_node, command_update_node_state, command_promote_writer, command_demote_writer,
  command_register_file, command_delete_file, command_assign_compactor, command_batch_file_ops,
  command_update_file, command_create_token, command_update_token, command_revoke_token,
  command_delete_token, command_rotate_token, command_create_organization,
  command_update_organization, command_delete_organization, command_create_team,
  command_update_team, command_delete_team, command_create_role, command_update_role,
  command_delete_role, command_create_measurement_permission, command_delete_measurement_permission,
  command_add_token_to_team, command_remove_token_from_team,
}
use iot_edge_db.Fsm.State.{
  ClusterFsm, new_cluster_fsm, apply_register_file, apply_update_file, apply_delete_file,
  apply_delete_token, dispatch, dispatch_known, apply_command, Log, apply, run,
}

register_file-IsConsistent :
    {m : Manifest}
    → IsConsistent m
    → (o : Option RegisterFilePayload) (i : ℕ) → IsConsistent (apply_register_file m o i).state
register_file-IsConsistent c none i = c
register_file-IsConsistent c (some p) i = register-IsConsistent c i p

update_file-IsConsistent :
    {m : Manifest}
    → IsConsistent m
    → (o : Option UpdateFilePayload) (i : ℕ) → IsConsistent (apply_update_file m o i).state
update_file-IsConsistent c none i = c
update_file-IsConsistent c (some p) i = update-IsConsistent c i p

delete_file-IsConsistent :
    {m : Manifest}
    → IsConsistent m
    → (o : Option DeleteFilePayload) → IsConsistent (apply_delete_file m o).state
delete_file-IsConsistent c none = c
delete_file-IsConsistent c (some p) = delete-IsConsistent c 0 p

delete_token-manifest :
    (f : ClusterFsm) (o : Option IdPayload)
    → IsConsistent f.manifest
    → IsConsistent (apply_delete_token f o).state.manifest
unfolding apply_delete_token
delete_token-manifest f none c = c
delete_token-manifest f (some p) c = c

dispatch-IsConsistent :
    (codec : Codec) (f : ClusterFsm) (t : CommandType) (b : GoString) (i : ℕ)
    → IsConsistent f.manifest
    → IsConsistent (dispatch codec f t b i).state.manifest
unfolding dispatch
dispatch-IsConsistent codec f command_add_node b i c = c
dispatch-IsConsistent codec f command_remove_node b i c = c
dispatch-IsConsistent codec f command_update_node b i c = c
dispatch-IsConsistent codec f command_update_node_state b i c = c
dispatch-IsConsistent codec f command_promote_writer b i c = c
dispatch-IsConsistent codec f command_demote_writer b i c = c
dispatch-IsConsistent codec f command_register_file b i c =
    register_file-IsConsistent c (codec.files.register_file b) i
dispatch-IsConsistent codec f command_delete_file b i c =
    delete_file-IsConsistent c (codec.files.delete_file b)
dispatch-IsConsistent codec f command_assign_compactor b i c = c
dispatch-IsConsistent codec f command_batch_file_ops b i c =
    batch-IsConsistent codec.files f.manifest (codec.batch_file_ops b) i c
dispatch-IsConsistent codec f command_update_file b i c =
    update_file-IsConsistent c (codec.files.update_file b) i
dispatch-IsConsistent codec f command_create_token b i c = c
dispatch-IsConsistent codec f command_update_token b i c = c
dispatch-IsConsistent codec f command_revoke_token b i c = c
dispatch-IsConsistent codec f command_delete_token b i c =
    delete_token-manifest f (codec.delete_token b) c
dispatch-IsConsistent codec f command_rotate_token b i c = c
dispatch-IsConsistent codec f command_create_organization b i c = c
dispatch-IsConsistent codec f command_update_organization b i c = c
dispatch-IsConsistent codec f command_delete_organization b i c = c
dispatch-IsConsistent codec f command_create_team b i c = c
dispatch-IsConsistent codec f command_update_team b i c = c
dispatch-IsConsistent codec f command_delete_team b i c = c
dispatch-IsConsistent codec f command_create_role b i c = c
dispatch-IsConsistent codec f command_update_role b i c = c
dispatch-IsConsistent codec f command_delete_role b i c = c
dispatch-IsConsistent codec f command_create_measurement_permission b i c = c
dispatch-IsConsistent codec f command_delete_measurement_permission b i c = c
dispatch-IsConsistent codec f command_add_token_to_team b i c = c
dispatch-IsConsistent codec f command_remove_token_from_team b i c = c

dispatch_known-IsConsistent :
    (codec : Codec) (f : ClusterFsm) (o : Option CommandType) (b : GoString) (i : ℕ)
    → IsConsistent f.manifest
    → IsConsistent (dispatch_known codec f o b i).state.manifest
dispatch_known-IsConsistent codec f none b i c = c
dispatch_known-IsConsistent codec f (some t) b i c = dispatch-IsConsistent codec f t b i c

apply_command-IsConsistent :
    (codec : Codec) (f : ClusterFsm) (o : Option Command) (i : ℕ)
    → IsConsistent f.manifest
    → IsConsistent (apply_command codec f o i).state.manifest
apply_command-IsConsistent codec f none i c = c
apply_command-IsConsistent codec f (some cmd) i c =
    dispatch_known-IsConsistent codec f (command_type cmd.type) cmd.payload i c

pub apply-IsConsistent :
    (codec : Codec) (f : ClusterFsm) (log : Log)
    → IsConsistent f.manifest
    → IsConsistent (apply codec f log).state.manifest
unfolding apply
apply-IsConsistent codec f log c =
    apply_command-IsConsistent codec f (codec.command log.data') log.index c

run-IsConsistent :
    (codec : Codec) (f : ClusterFsm) (logs : List Log)
    → IsConsistent f.manifest
    → IsConsistent (run codec f logs).manifest
unfolding run
run-IsConsistent codec f [] c = c
run-IsConsistent codec f (log ∷ logs) c =
    run-IsConsistent codec (apply codec f log).state logs (apply-IsConsistent codec f log c)

-- Starting from the empty state, whatever the log holds, and however its payloads decode, after every
-- one of its entries each file of the manifest has a path that ValidateManifestPath accepts and that is
-- its key; the index by database lists only files of that database, and all of them unless the
-- database is the empty string.
pub run_manifest-IsConsistent :
    (codec : Codec) (logs : List Log) → IsConsistent (run codec new_cluster_fsm logs).manifest
run_manifest-IsConsistent codec logs =
    run-IsConsistent codec new_cluster_fsm logs new_manifest-IsConsistent
