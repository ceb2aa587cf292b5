-- ===== src/Fsm/Consistent.antt =====
-- The consistency of the authorization state, and Apply (internal/cluster/raft/fsm.go).
use iot_edge_db.Prelude.{ℕ, ℤ, ◌≡◌, refl, subst, sym, int64, Option, none, some, GoString}
use iot_edge_db.GoMap.{get, int_key, str_key}
use iot_edge_db.Types.{IdPayload}
use iot_edge_db.Tokens.Consistent
use iot_edge_db.Tokens.State.{delete_token}
use iot_edge_db.Tokens.Preserve.{
  new_tokens-IsConsistent, create_token-IsConsistent, update_token-IsConsistent,
  revoke_token-IsConsistent, delete_token-IsConsistent, rotate_token-IsConsistent,
}
use iot_edge_db.Rbac.Tables
use iot_edge_db.Rbac.Unused.{IsUnused}
use iot_edge_db.Rbac.Rows.{new_rbac-IsConsistent}
use iot_edge_db.Rbac.OrganizationKeeps.{
  create_organization-IsConsistent, update_organization-IsConsistent,
}
use iot_edge_db.Rbac.TeamKeeps.{create_team-IsConsistent, update_team-IsConsistent}
use iot_edge_db.Rbac.RoleKeeps.{
  create_role-IsConsistent, update_role-IsConsistent, delete_role-IsConsistent,
}
use iot_edge_db.Rbac.MemberKeeps.{
  create_permission-IsConsistent, delete_permission-IsConsistent, add_token_to_team-IsConsistent,
  remove_token_from_team-IsConsistent,
}
use iot_edge_db.Rbac.Teardown.{delete_organization-IsConsistent, delete_team-IsConsistent}
use iot_edge_db.Fsm.TokenKeeps.{
  create_keeps, update_keeps, revoke_keeps, rotate_keeps, delete_keeps,
}
use iot_edge_db.Fsm.Commands.{
  Codec, Command, CommandType, command_type, command_add_node, command_remove_node,
  command_update_node, command_update_node_state, command_promote_writer, command_demote_writer,
  command_register_file, command_delete_file, command_assign_compactor, command_batch_file_ops,
  command_update_file, command_create_token, command_update_token, command_revoke_token,
  command_delete_token, command_rotate_token, command_create_organization,
  command_update_organization, command_delete_organization, command_create_team,
  command_update_team, command_delete_team, command_create_role, command_update_role,
  command_delete_role, command_create_measurement_permission, command_delete_measurement_permission,
  command_add_token_to_team, command_remove_token_from_team,
}
use iot_edge_db.Fsm.State.{
  ClusterFsm, new_cluster_fsm, apply_delete_token, dispatch, dispatch_known, apply_command, Log,
  apply,
}

-- The tokens' indices are exact, the RBAC tables' indices are exact, and no row of them is an orphan.
pub record IsAuthConsistent (f : ClusterFsm) : Type 0 where
  pub auth : Consistent.IsConsistent f.auth
  pub rbac : Tables.IsConsistent f.auth.tokens f.rbac

-- No row has this id yet.
pub record IsFresh (f : ClusterFsm) (id : ℤ) : Type 0 where
  pub token : get f.auth.tokens id ≡ none
  pub rbac : IsUnused f.rbac id

pub delete_token-auth :
    (f : ClusterFsm) (p : Option IdPayload)
    → (apply_delete_token f p).state.auth ≡ (delete_token f.auth p).state
unfolding apply_delete_token
delete_token-auth f none = refl
delete_token-auth f (some p) = refl

dispatch-IsAuthConsistent :
    (codec : Codec) (f : ClusterFsm) (t : CommandType) (b : GoString) (i : ℕ)
    → IsAuthConsistent f
    → IsFresh f (int64 i)
    → IsAuthConsistent (dispatch codec f t b i).state
unfolding dispatch
dispatch-IsAuthConsistent codec f command_add_node b i c n = record { auth = c.auth; rbac = c.rbac }
dispatch-IsAuthConsistent codec f command_remove_node b i c n = record {
  auth = c.auth;
  rbac = c.rbac;
}
dispatch-IsAuthConsistent codec f command_update_node b i c n = record {
  auth = c.auth;
  rbac = c.rbac;
}
dispatch-IsAuthConsistent codec f command_update_node_state b i c n = record {
  auth = c.auth;
  rbac = c.rbac;
}
dispatch-IsAuthConsistent codec f command_promote_writer b i c n = record {
  auth = c.auth;
  rbac = c.rbac;
}
dispatch-IsAuthConsistent codec f command_demote_writer b i c n = record {
  auth = c.auth;
  rbac = c.rbac;
}
dispatch-IsAuthConsistent codec f command_register_file b i c n = record {
  auth = c.auth;
  rbac = c.rbac;
}
dispatch-IsAuthConsistent codec f command_delete_file b i c n = record {
  auth = c.auth;
  rbac = c.rbac;
}
dispatch-IsAuthConsistent codec f command_assign_compactor b i c n = record {
  auth = c.auth;
  rbac = c.rbac;
}
dispatch-IsAuthConsistent codec f command_batch_file_ops b i c n = record {
  auth = c.auth;
  rbac = c.rbac;
}
dispatch-IsAuthConsistent codec f command_update_file b i c n = record {
  auth = c.auth;
  rbac = c.rbac;
}
dispatch-IsAuthConsistent codec f command_create_token b i c n = record {
  auth = create_token-IsConsistent c.auth (codec.create_token b) i n.token;
  rbac = create_keeps f.auth f.rbac c.rbac (codec.create_token b) i;
}
dispatch-IsAuthConsistent codec f command_update_token b i c n = record {
  auth = update_token-IsConsistent c.auth (codec.update_token b) i;
  rbac = update_keeps f.auth f.rbac c.rbac (codec.update_token b) i;
}
dispatch-IsAuthConsistent codec f command_revoke_token b i c n = record {
  auth = revoke_token-IsConsistent c.auth (codec.revoke_token b) i;
  rbac = revoke_keeps f.auth f.rbac c.rbac (codec.revoke_token b) i;
}
dispatch-IsAuthConsistent codec f command_delete_token b i c n = record {
  auth =
      subst Consistent.IsConsistent (sym (delete_token-auth f (codec.delete_token b)))
        (delete_token-IsConsistent c.auth (codec.delete_token b));
  rbac = delete_keeps f (codec.delete_token b) c.rbac;
}
dispatch-IsAuthConsistent codec f command_rotate_token b i c n = record {
  auth = rotate_token-IsConsistent c.auth (codec.rotate_token b) i;
  rbac = rotate_keeps f.auth f.rbac c.rbac (codec.rotate_token b) i;
}
dispatch-IsAuthConsistent codec f command_create_organization b i c n = record {
  auth = c.auth;
  rbac =
      create_organization-IsConsistent f.auth.tokens f.rbac c.rbac (codec.create_organization b) i
        n.rbac.organization;
}
dispatch-IsAuthConsistent codec f command_update_organization b i c n = record {
  auth = c.auth;
  rbac =
      update_organization-IsConsistent f.auth.tokens f.rbac c.rbac (codec.update_organization b) i;
}
dispatch-IsAuthConsistent codec f command_delete_organization b i c n = record {
  auth = c.auth;
  rbac =
      delete_organization-IsConsistent f.auth.tokens f.rbac (codec.delete_organization b) i c.rbac;
}
dispatch-IsAuthConsistent codec f command_create_team b i c n = record {
  auth = c.auth;
  rbac = create_team-IsConsistent f.auth.tokens f.rbac c.rbac (codec.create_team b) i n.rbac.team;
}
dispatch-IsAuthConsistent codec f command_update_team b i c n = record {
  auth = c.auth;
  rbac = update_team-IsConsistent f.auth.tokens f.rbac c.rbac (codec.update_team b) i;
}
dispatch-IsAuthConsistent codec f command_delete_team b i c n = record {
  auth = c.auth;
  rbac = delete_team-IsConsistent f.auth.tokens f.rbac (codec.delete_team b) i c.rbac;
}
dispatch-IsAuthConsistent codec f command_create_role b i c n = record {
  auth = c.auth;
  rbac = create_role-IsConsistent f.auth.tokens f.rbac c.rbac (codec.create_role b) i n.rbac.role;
}
dispatch-IsAuthConsistent codec f command_update_role b i c n = record {
  auth = c.auth;
  rbac = update_role-IsConsistent f.auth.tokens f.rbac c.rbac (codec.update_role b) i;
}
dispatch-IsAuthConsistent codec f command_delete_role b i c n = record {
  auth = c.auth;
  rbac = delete_role-IsConsistent f.auth.tokens f.rbac c.rbac (codec.delete_role b) i;
}
dispatch-IsAuthConsistent codec f command_create_measurement_permission b i c n = record {
  auth = c.auth;
  rbac =
      create_permission-IsConsistent f.auth.tokens f.rbac c.rbac
        (codec.create_measurement_permission b) i n.rbac.permission;
}
dispatch-IsAuthConsistent codec f command_delete_measurement_permission b i c n = record {
  auth = c.auth;
  rbac =
      delete_permission-IsConsistent f.auth.tokens f.rbac c.rbac
        (codec.delete_measurement_permission b) i;
}
dispatch-IsAuthConsistent codec f command_add_token_to_team b i c n = record {
  auth = c.auth;
  rbac =
      add_token_to_team-IsConsistent f.auth.tokens f.rbac c.rbac (codec.add_token_to_team b) i
        n.rbac.membership;
}
dispatch-IsAuthConsistent codec f command_remove_token_from_team b i c n = record {
  auth = c.auth;
  rbac =
      remove_token_from_team-IsConsistent f.auth.tokens f.rbac c.rbac
        (codec.remove_token_from_team b) i;
}

dispatch_known-IsAuthConsistent :
    (codec : Codec) (f : ClusterFsm) (o : Option CommandType) (b : GoString) (i : ℕ)
    → IsAuthConsistent f
    → IsFresh f (int64 i)
    → IsAuthConsistent (dispatch_known codec f o b i).state
dispatch_known-IsAuthConsistent codec f none b i c n = c
dispatch_known-IsAuthConsistent codec f (some t) b i c n =
    dispatch-IsAuthConsistent codec f t b i c n

apply_command-IsAuthConsistent :
    (codec : Codec) (f : ClusterFsm) (o : Option Command) (i : ℕ)
    → IsAuthConsistent f
    → IsFresh f (int64 i)
    → IsAuthConsistent (apply_command codec f o i).state
apply_command-IsAuthConsistent codec f none i c n = c
apply_command-IsAuthConsistent codec f (some cmd) i c n =
    dispatch_known-IsAuthConsistent codec f (command_type cmd.type) cmd.payload i c n

-- Applying any log entry whose index is not yet the id of a row keeps the whole authorization state
-- consistent: the indices of the tokens by name and by prefix are exact, every token has a valid hash,
-- prefix and permissions, every RBAC index is exact, and every team has its organization, every role
-- its team, every measurement permission its role, and every membership its token and its team.
pub apply-IsAuthConsistent :
    (codec : Codec) (f : ClusterFsm) (log : Log)
    → IsAuthConsistent f
    → IsFresh f (int64 log.index)
    → IsAuthConsistent (apply codec f log).state
unfolding apply
apply-IsAuthConsistent codec f log c n =
    apply_command-IsAuthConsistent codec f (codec.command log.data') log.index c n

pub new_cluster_fsm-IsAuthConsistent : IsAuthConsistent new_cluster_fsm
new_cluster_fsm-IsAuthConsistent = record {
  auth = new_tokens-IsConsistent;
  rbac = new_rbac-IsConsistent;
}
