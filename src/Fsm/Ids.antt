-- ===== src/Fsm/Ids.antt =====
-- The ids in use after an entry of the log is applied (Apply in internal/cluster/raft/fsm.go).
use iot_edge_db.Prelude.{
  ℕ, ℤ, ◌≢◌, ap, ◌∙◌, int64, Option, none, some, GoString, Bool-cases, inl, inr, is_zero,
}
use iot_edge_db.GoMap.{get, int_key}
use iot_edge_db.Types.{TokenEntry, IdPayload}
use iot_edge_db.Tokens.State.{Tokens}
use iot_edge_db.Rbac.State.{Rbac}
use iot_edge_db.Tokens.Unused.{
  create_token_unused, update_token_unused, revoke_token_unused, rotate_token_unused,
  delete_token_unused,
}
use iot_edge_db.Rbac.Unused.{
  IsUnused, create_organization-IsUnused, create_team-IsUnused, create_role-IsUnused,
  create_permission-IsUnused, add_token_to_team-IsUnused,
}
use iot_edge_db.Rbac.UnusedTeardown.{
  delete_organization-IsUnused, delete_team-IsUnused, delete_role-IsUnused,
  delete_permission-IsUnused, remove_token_from_team-IsUnused,
}
use iot_edge_db.Rbac.UnusedUpdates.{
  update_organization-IsUnused, update_team-IsUnused, update_role-IsUnused,
}
use iot_edge_db.Rbac.UnusedCascade.{cascade_members_of_token-IsUnused}
use iot_edge_db.Fsm.Commands.{
  Codec, Command, CommandType, command_type, command_add_node, command_remove_node,
  command_update_node, command_update_node_state, command_promote_writer, command_demote_writer,
  command_register_file, command_delete_file, command_assign_compactor, command_batch_file_ops,
  command_update_file, command_create_token, command_update_token, command_revoke_token,
  command_delete_token, command_rotate_token, command_create_organization,
  command_update_organization, command_delete_organization, command_create_team,
  command_update_team, command_delete_team, command_create_role, command_update_role,
  command_delete_role, command_create_measurement_permission, command_delete_measurement_permission,
  command_add_token_to_team, command_remove_token_from_team,
}
use iot_edge_db.Fsm.State.{
  ClusterFsm, rbac_after_delete, apply_delete_token, dispatch, dispatch_known, apply_command, Log,
  apply,
}
use iot_edge_db.Fsm.Consistent.{IsFresh, delete_token-auth}

rbac_after_delete-IsUnused :
    (f : Rbac) (k id : ℤ) (o : Option TokenEntry)
    → IsUnused f k
    → IsUnused (rbac_after_delete f id o) k
rbac_after_delete-IsUnused f k id none u = u
rbac_after_delete-IsUnused f k id (some e) u = cascade_members_of_token-IsUnused k f id u

delete_token-IsUnused :
    (f : ClusterFsm) (k : ℤ) (p : Option IdPayload)
    → IsUnused f.rbac k
    → IsUnused (apply_delete_token f p).state.rbac k
unfolding apply_delete_token
delete_token-IsUnused f k none u = u
delete_token-IsUnused f k (some p) u = elim (Bool-cases (is_zero p.id)) [
  | inl h ↦ rw h u
  | inr h ↦ rw h (rbac_after_delete-IsUnused f.rbac k p.id _ u)
]

dispatch-IsFresh :
    (codec : Codec) (f : ClusterFsm) (t : CommandType) (b : GoString) (i : ℕ) (k : ℤ)
    → int64 i ≢ k
    → IsFresh f k
    → IsFresh (dispatch codec f t b i).state k
unfolding dispatch
dispatch-IsFresh codec f command_add_node b i k ne u = record { token = u.token; rbac = u.rbac }
dispatch-IsFresh codec f command_remove_node b i k ne u = record { token = u.token; rbac = u.rbac }
dispatch-IsFresh codec f command_update_node b i k ne u = record { token = u.token; rbac = u.rbac }
dispatch-IsFresh codec f command_update_node_state b i k ne u = record {
  token = u.token;
  rbac = u.rbac;
}
dispatch-IsFresh codec f command_promote_writer b i k ne u = record {
  token = u.token;
  rbac = u.rbac;
}
dispatch-IsFresh codec f command_demote_writer b i k ne u = record {
  token = u.token;
  rbac = u.rbac;
}
dispatch-IsFresh codec f command_register_file b i k ne u = record {
  token = u.token;
  rbac = u.rbac;
}
dispatch-IsFresh codec f command_delete_file b i k ne u = record { token = u.token; rbac = u.rbac }
dispatch-IsFresh codec f command_assign_compactor b i k ne u = record {
  token = u.token;
  rbac = u.rbac;
}
dispatch-IsFresh codec f command_batch_file_ops b i k ne u = record {
  token = u.token;
  rbac = u.rbac;
}
dispatch-IsFresh codec f command_update_file b i k ne u = record { token = u.token; rbac = u.rbac }
dispatch-IsFresh codec f command_create_token b i k ne u = record {
  token = create_token_unused f.auth k u.token (codec.create_token b) i ne;
  rbac = u.rbac;
}
dispatch-IsFresh codec f command_update_token b i k ne u = record {
  token = update_token_unused f.auth k u.token (codec.update_token b) i;
  rbac = u.rbac;
}
dispatch-IsFresh codec f command_revoke_token b i k ne u = record {
  token = revoke_token_unused f.auth k u.token (codec.revoke_token b) i;
  rbac = u.rbac;
}
dispatch-IsFresh codec f command_delete_token b i k ne u = record {
  token =
      ap (λ (s : Tokens). get s.tokens k) (delete_token-auth f (codec.delete_token b))
      ∙ delete_token_unused f.auth k u.token (codec.delete_token b);
  rbac = delete_token-IsUnused f k (codec.delete_token b) u.rbac;
}
dispatch-IsFresh codec f command_rotate_token b i k ne u = record {
  token = rotate_token_unused f.auth k u.token (codec.rotate_token b) i;
  rbac = u.rbac;
}
dispatch-IsFresh codec f command_create_organization b i k ne u = record {
  token = u.token;
  rbac = create_organization-IsUnused f.rbac k u.rbac i ne (codec.create_organization b);
}
dispatch-IsFresh codec f command_update_organization b i k ne u = record {
  token = u.token;
  rbac = update_organization-IsUnused f.rbac k u.rbac (codec.update_organization b) i;
}
dispatch-IsFresh codec f command_delete_organization b i k ne u = record {
  token = u.token;
  rbac = delete_organization-IsUnused k f.rbac (codec.delete_organization b) i u.rbac;
}
dispatch-IsFresh codec f command_create_team b i k ne u = record {
  token = u.token;
  rbac = create_team-IsUnused f.rbac k u.rbac i ne (codec.create_team b);
}
dispatch-IsFresh codec f command_update_team b i k ne u = record {
  token = u.token;
  rbac = update_team-IsUnused f.rbac k u.rbac (codec.update_team b) i;
}
dispatch-IsFresh codec f command_delete_team b i k ne u = record {
  token = u.token;
  rbac = delete_team-IsUnused k f.rbac (codec.delete_team b) i u.rbac;
}
dispatch-IsFresh codec f command_create_role b i k ne u = record {
  token = u.token;
  rbac = create_role-IsUnused f.rbac k u.rbac i ne (codec.create_role b);
}
dispatch-IsFresh codec f command_update_role b i k ne u = record {
  token = u.token;
  rbac = update_role-IsUnused f.rbac k u.rbac (codec.update_role b) i;
}
dispatch-IsFresh codec f command_delete_role b i k ne u = record {
  token = u.token;
  rbac = delete_role-IsUnused k f.rbac (codec.delete_role b) i u.rbac;
}
dispatch-IsFresh codec f command_create_measurement_permission b i k ne u = record {
  token = u.token;
  rbac = create_permission-IsUnused f.rbac k u.rbac i ne (codec.create_measurement_permission b);
}
dispatch-IsFresh codec f command_delete_measurement_permission b i k ne u = record {
  token = u.token;
  rbac = delete_permission-IsUnused k f.rbac (codec.delete_measurement_permission b) i u.rbac;
}
dispatch-IsFresh codec f command_add_token_to_team b i k ne u = record {
  token = u.token;
  rbac = add_token_to_team-IsUnused f.rbac k u.rbac i ne f.auth.tokens (codec.add_token_to_team b);
}
dispatch-IsFresh codec f command_remove_token_from_team b i k ne u = record {
  token = u.token;
  rbac = remove_token_from_team-IsUnused k f.rbac (codec.remove_token_from_team b) i u.rbac;
}

dispatch_known-IsFresh :
    (codec : Codec) (f : ClusterFsm) (o : Option CommandType) (b : GoString) (i : ℕ) (k : ℤ)
    → int64 i ≢ k
    → IsFresh f k
    → IsFresh (dispatch_known codec f o b i).state k
dispatch_known-IsFresh codec f none b i k ne u = u
dispatch_known-IsFresh codec f (some t) b i k ne u = dispatch-IsFresh codec f t b i k ne u

apply_command-IsFresh :
    (codec : Codec) (f : ClusterFsm) (o : Option Command) (i : ℕ) (k : ℤ)
    → int64 i ≢ k
    → IsFresh f k
    → IsFresh (apply_command codec f o i).state k
apply_command-IsFresh codec f none i k ne u = u
apply_command-IsFresh codec f (some cmd) i k ne u =
    dispatch_known-IsFresh codec f (command_type cmd.type) cmd.payload i k ne u

-- Whatever a log entry holds, applying it uses no other id than its own index: an id that no token and no
-- RBAC row has stays unused.
pub apply-IsFresh :
    (codec : Codec) (f : ClusterFsm) (log : Log) (k : ℤ)
    → int64 log.index ≢ k
    → IsFresh f k
    → IsFresh (apply codec f log).state k
unfolding apply
apply-IsFresh codec f log k ne u =
    apply_command-IsFresh codec f (codec.command log.data') log.index k ne u
