-- ===== src/Fsm/TokenKeeps.antt =====
-- The token commands (internal/cluster/raft/fsm.go) beside the memberships that refer to tokens.
use iot_edge_db.Prelude.{Option, none, some, ℕ, ℤ, is_zero, Bool-cases, inl, inr, bytes, ◌&&◌}
use iot_edge_db.GoMap.{Map, get, put, int_key, str_key}
use iot_edge_db.Types.{
  TokenEntry, CreateTokenPayload, UpdateTokenPayload, RotateTokenPayload, IdPayload, Error,
}
use iot_edge_db.Tokens.State
use iot_edge_db.Tokens.State.{Tokens}
use iot_edge_db.Rbac.State.{Rbac}
use iot_edge_db.Rbac.Tables.{IsConsistent}
use iot_edge_db.Rbac.MemberRows.{MembersOk-put_token, cascade_members_of_token-IsConsistent}
use iot_edge_db.Fsm.State.{ClusterFsm, apply_delete_token, rbac_after_delete}

put_token-IsConsistent :
    (tokens : Map ℤ TokenEntry) (f : Rbac) (i : ℤ) (t : TokenEntry)
    → IsConsistent tokens f
    → IsConsistent (put tokens i t) f
put_token-IsConsistent tokens f i t c = record {
  orgs = c.orgs;
  teams = c.teams;
  below = record {
    roles = c.below.roles;
    perms = c.below.perms;
    members =
        MembersOk-put_token tokens f.teams f.token_memberships f.token_memberships_by_pair
          f.token_memberships_by_token f.token_memberships_by_team c.below.members i t;
  };
}

module _ (a : Tokens) (f : Rbac) (c : IsConsistent a.tokens f) where
  insert_keeps :
      (e : TokenEntry) (o : Option ℤ) → IsConsistent (State.insert_token a e o).state.tokens f
  insert_keeps e (some x) = c
  insert_keeps e none = put_token-IsConsistent a.tokens f e.id e c

  create_validated_keeps :
      (t : TokenEntry) (i : ℕ) (v : Option Error)
      → IsConsistent (State.create_validated a t i v).state.tokens f
  create_validated_keeps t i (some x) = c
  create_validated_keeps t i none = elim (Bool-cases (is_zero t.created_at_unix_nano)) [
    | inl h ↦ rw h c
    | inr h ↦ rw h (insert_keeps (State.stamped t i) _)
  ]

  pub create_keeps :
      (p : Option CreateTokenPayload) (i : ℕ)
      → IsConsistent (State.apply_create_token a p i).state.tokens f
  unfolding State.apply_create_token
  create_keeps none i = c
  create_keeps (some p) i = create_validated_keeps p.token i _

  rotate_found_keeps :
      (p : RotateTokenPayload) (i : ℕ) (o : Option TokenEntry)
      → IsConsistent (State.rotate_found a p i o).state.tokens f
  rotate_found_keeps p i none = c
  rotate_found_keeps p i (some e) = put_token-IsConsistent a.tokens f p.id _ c

  rotate_validated_keeps :
      (p : RotateTokenPayload) (i : ℕ) (v : Option Error)
      → IsConsistent (State.rotate_validated a p i v).state.tokens f
  rotate_validated_keeps p i (some x) = c
  rotate_validated_keeps p i none = rotate_found_keeps p i _

  pub rotate_keeps :
      (p : Option RotateTokenPayload) (i : ℕ)
      → IsConsistent (State.apply_rotate_token a p i).state.tokens f
  unfolding State.apply_rotate_token
  rotate_keeps none i = c
  rotate_keeps (some p) i = elim (Bool-cases (is_zero p.id)) [
    | inl h ↦ rw h c
    | inr h ↦ rw h (rotate_validated_keeps p i _)
  ]

  revoke_found_keeps :
      (id : ℤ) (i : ℕ) (o : Option TokenEntry)
      → IsConsistent (State.revoke_found a id i o).state.tokens f
  revoke_found_keeps id i none = c
  revoke_found_keeps id i (some e) = put_token-IsConsistent a.tokens f id _ c

  pub revoke_keeps :
      (p : Option IdPayload) (i : ℕ) → IsConsistent (State.apply_revoke_token a p i).state.tokens f
  unfolding State.apply_revoke_token
  revoke_keeps none i = c
  revoke_keeps (some p) i = elim (Bool-cases (is_zero p.id)) [
    | inl h ↦ rw h c
    | inr h ↦ rw h (revoke_found_keeps p.id i _)
  ]

  update_found_keeps :
      (p : UpdateTokenPayload) (i : ℕ) (o : Option TokenEntry)
      → IsConsistent (State.update_found a p i o).state.tokens f
  update_found_keeps p i none = c
  update_found_keeps p i (some e) =
      elim (Bool-cases
        (State.changed (bytes "name") p && State.taken (get a.tokens_by_name p.name) p.id)) [
          | inl h ↦ rw h c
          | inr h ↦ rw h (put_token-IsConsistent a.tokens f p.id _ c)
        ]

  update_checked_keeps :
      (p : UpdateTokenPayload) (i : ℕ) (v : Option Error)
      → IsConsistent (State.update_checked a p i v).state.tokens f
  update_checked_keeps p i (some x) = c
  update_checked_keeps p i none = update_found_keeps p i _

  pub update_keeps :
      (p : Option UpdateTokenPayload) (i : ℕ)
      → IsConsistent (State.apply_update_token a p i).state.tokens f
  unfolding State.apply_update_token
  update_keeps none i = c
  update_keeps (some p) i = elim (Bool-cases (is_zero p.id)) [
    | inl h ↦ rw h c
    | inr h ↦ rw h (update_checked_keeps p i _)
  ]

  delete_found_keeps :
      (id : ℤ) (o : Option TokenEntry)
      → IsConsistent (State.delete_found a id o).state.tokens (rbac_after_delete f id o)
  delete_found_keeps id none = c
  delete_found_keeps id (some e) = cascade_members_of_token-IsConsistent a.tokens f id c

pub delete_keeps :
    (f : ClusterFsm) (p : Option IdPayload)
    → IsConsistent f.auth.tokens f.rbac
    → let g = (apply_delete_token f p).state in IsConsistent g.auth.tokens g.rbac
unfolding apply_delete_token State.delete_token
delete_keeps f none c = c
delete_keeps f (some p) c = elim (Bool-cases (is_zero p.id)) [
  | inl h ↦ rw h c
  | inr h ↦ rw h (delete_found_keeps f.auth f.rbac c p.id _)
]
