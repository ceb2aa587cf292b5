-- ===== src/Fsm/Refused.antt =====
-- What Apply (internal/cluster/raft/fsm.go) does to the RBAC tables when it refuses a command.
use iot_edge_db.Prelude.{
  ℕ, ◌≡◌, refl, ◌⊎◌, inl, inr, Option, none, some, GoString, Bool-cases, is_zero, ℤ,
}
use iot_edge_db.GoMap.{int_key}
use iot_edge_db.Types.{Error, Outcome, IdPayload, TokenEntry}
use iot_edge_db.Tokens.State.{Tokens, delete_token, delete_found}
use iot_edge_db.Rbac.State.{Rbac, inc_rejected_rbac}
use iot_edge_db.Rbac.Refused.{
  IsAllOrNothing, accepted, ignored, counted, create_organization-IsAllOrNothing,
  create_team-IsAllOrNothing, create_role-IsAllOrNothing, create_permission-IsAllOrNothing,
  add_token_to_team-IsAllOrNothing,
}
use iot_edge_db.Rbac.RefusedChanges.{
  update_organization-IsAllOrNothing, delete_organization-IsAllOrNothing,
  update_team-IsAllOrNothing, delete_team-IsAllOrNothing, update_role-IsAllOrNothing,
  delete_role-IsAllOrNothing, delete_permission-IsAllOrNothing,
  remove_token_from_team-IsAllOrNothing,
}
use iot_edge_db.Fsm.Commands.{
  Codec, Command, CommandType, command_type, command_add_node, command_remove_node,
  command_update_node, command_update_node_state, command_promote_writer, command_demote_writer,
  command_register_file, command_delete_file, command_assign_compactor, command_batch_file_ops,
  command_update_file, command_create_token, command_update_token, command_revoke_token,
  command_delete_token, command_rotate_token, command_create_organization,
  command_update_organization, command_delete_organization, command_create_team,
  command_update_team, command_delete_team, command_create_role, command_update_role,
  command_delete_role, command_create_measurement_permission, command_delete_measurement_permission,
  command_add_token_to_team, command_remove_token_from_team,
}
use iot_edge_db.Fsm.State.{
  ClusterFsm, on_rbac, apply_delete_token, dispatch, dispatch_known, apply_command, Log, apply,
}

-- The RBAC tables are as they were but for the counter of refusals.
abbrev pub SameRbac : Rbac → Rbac → Type 0
SameRbac f g = (g ≡ f) ⊎ (g ≡ inc_rejected_rbac f)

-- There is no error, or the RBAC tables are as they were.
data IsRbacKept (f : ClusterFsm) (r : Outcome ClusterFsm) : Type 0 where
  fine : r.error ≡ none → IsRbacKept f r
  kept : SameRbac f.rbac r.state.rbac → IsRbacKept f r

on_rbac-IsRbacKept :
    (f : ClusterFsm) (r : Outcome Rbac) → IsAllOrNothing f.rbac r → IsRbacKept f (on_rbac f r)
on_rbac-IsRbacKept f r (accepted e) = fine e
on_rbac-IsRbacKept f r (ignored e) = kept (inl e)
on_rbac-IsRbacKept f r (counted e) = kept (inr e)

delete_found-error :
    (f : Tokens) (id : ℤ) (o : Option TokenEntry) → (delete_found f id o).error ≡ none
delete_found-error f id none = refl
delete_found-error f id (some e) = refl

delete_token-IsRbacKept :
    (f : ClusterFsm) (p : Option IdPayload) → IsRbacKept f (apply_delete_token f p)
unfolding apply_delete_token delete_token
delete_token-IsRbacKept f none = kept (inl refl)
delete_token-IsRbacKept f (some p) = elim (Bool-cases (is_zero p.id)) [
  | inl h ↦ rw h (kept (inl refl))
  | inr h ↦ rw h (fine (delete_found-error f.auth p.id _))
]

dispatch-IsRbacKept :
    (codec : Codec) (f : ClusterFsm) (t : CommandType) (b : GoString) (i : ℕ)
    → IsRbacKept f (dispatch codec f t b i)
unfolding dispatch
dispatch-IsRbacKept codec f command_add_node b i = kept (inl refl)
dispatch-IsRbacKept codec f command_remove_node b i = kept (inl refl)
dispatch-IsRbacKept codec f command_update_node b i = kept (inl refl)
dispatch-IsRbacKept codec f command_update_node_state b i = kept (inl refl)
dispatch-IsRbacKept codec f command_promote_writer b i = kept (inl refl)
dispatch-IsRbacKept codec f command_demote_writer b i = kept (inl refl)
dispatch-IsRbacKept codec f command_register_file b i = kept (inl refl)
dispatch-IsRbacKept codec f command_delete_file b i = kept (inl refl)
dispatch-IsRbacKept codec f command_assign_compactor b i = kept (inl refl)
dispatch-IsRbacKept codec f command_batch_file_ops b i = kept (inl refl)
dispatch-IsRbacKept codec f command_update_file b i = kept (inl refl)
dispatch-IsRbacKept codec f command_create_token b i = kept (inl refl)
dispatch-IsRbacKept codec f command_update_token b i = kept (inl refl)
dispatch-IsRbacKept codec f command_revoke_token b i = kept (inl refl)
dispatch-IsRbacKept codec f command_delete_token b i =
    delete_token-IsRbacKept f (codec.delete_token b)
dispatch-IsRbacKept codec f command_rotate_token b i = kept (inl refl)
dispatch-IsRbacKept codec f command_create_organization b i =
    on_rbac-IsRbacKept f _
      (create_organization-IsAllOrNothing f.rbac (codec.create_organization b) i)
dispatch-IsRbacKept codec f command_update_organization b i =
    on_rbac-IsRbacKept f _
      (update_organization-IsAllOrNothing f.rbac (codec.update_organization b) i)
dispatch-IsRbacKept codec f command_delete_organization b i =
    on_rbac-IsRbacKept f _
      (delete_organization-IsAllOrNothing f.rbac (codec.delete_organization b) i)
dispatch-IsRbacKept codec f command_create_team b i =
    on_rbac-IsRbacKept f _ (create_team-IsAllOrNothing f.rbac (codec.create_team b) i)
dispatch-IsRbacKept codec f command_update_team b i =
    on_rbac-IsRbacKept f _ (update_team-IsAllOrNothing f.rbac (codec.update_team b) i)
dispatch-IsRbacKept codec f command_delete_team b i =
    on_rbac-IsRbacKept f _ (delete_team-IsAllOrNothing f.rbac (codec.delete_team b) i)
dispatch-IsRbacKept codec f command_create_role b i =
    on_rbac-IsRbacKept f _ (create_role-IsAllOrNothing f.rbac (codec.create_role b) i)
dispatch-IsRbacKept codec f command_update_role b i =
    on_rbac-IsRbacKept f _ (update_role-IsAllOrNothing f.rbac (codec.update_role b) i)
dispatch-IsRbacKept codec f command_delete_role b i =
    on_rbac-IsRbacKept f _ (delete_role-IsAllOrNothing f.rbac (codec.delete_role b) i)
dispatch-IsRbacKept codec f command_create_measurement_permission b i =
    on_rbac-IsRbacKept f _
      (create_permission-IsAllOrNothing f.rbac (codec.create_measurement_permission b) i)
dispatch-IsRbacKept codec f command_delete_measurement_permission b i =
    on_rbac-IsRbacKept f _
      (delete_permission-IsAllOrNothing f.rbac (codec.delete_measurement_permission b) i)
dispatch-IsRbacKept codec f command_add_token_to_team b i =
    on_rbac-IsRbacKept f _
      (add_token_to_team-IsAllOrNothing f.rbac f.auth.tokens (codec.add_token_to_team b) i)
dispatch-IsRbacKept codec f command_remove_token_from_team b i =
    on_rbac-IsRbacKept f _
      (remove_token_from_team-IsAllOrNothing f.rbac (codec.remove_token_from_team b) i)

dispatch_known-IsRbacKept :
    (codec : Codec) (f : ClusterFsm) (o : Option CommandType) (b : GoString) (i : ℕ)
    → IsRbacKept f (dispatch_known codec f o b i)
dispatch_known-IsRbacKept codec f none b i = kept (inl refl)
dispatch_known-IsRbacKept codec f (some t) b i = dispatch-IsRbacKept codec f t b i

apply_command-IsRbacKept :
    (codec : Codec) (f : ClusterFsm) (o : Option Command) (i : ℕ)
    → IsRbacKept f (apply_command codec f o i)
apply_command-IsRbacKept codec f none i = kept (inl refl)
apply_command-IsRbacKept codec f (some cmd) i =
    dispatch_known-IsRbacKept codec f (command_type cmd.type) cmd.payload i

kept_of_error :
    (f : ClusterFsm) (r : Outcome ClusterFsm) {e : Error}
    → IsRbacKept f r
    → r.error ≡ some e
    → SameRbac f.rbac r.state.rbac
kept_of_error f r (fine h) k = cc
kept_of_error f r (kept s) k = s

-- When Apply returns an error, whatever the command, the RBAC tables and their indices are as they were
-- before, but for the counter of refused commands.
pub apply-SameRbac :
    (codec : Codec) (f : ClusterFsm) (log : Log) {e : Error}
    → (apply codec f log).error ≡ some e
    → SameRbac f.rbac (apply codec f log).state.rbac
unfolding apply
apply-SameRbac codec f log h =
    kept_of_error f _ (apply_command-IsRbacKept codec f (codec.command log.data') log.index) h
