-- ===== src/Rbac/RoleKeeps.antt =====
-- The commands of the roles (internal/cluster/raft/fsm_rbac.go), and the invariant of the RBAC tables.
use iot_edge_db.Prelude.{
  ◌≡◌, refl, ◌∙◌, true, Option, none, some, List, [], ◌∷◌, is_some, ℕ, ℤ, int64, GoString, bytes,
  is_zero, Bool-cases, inl, inr,
}
use iot_edge_db.GoMap.{Map, get, int_key, str_key}
use iot_edge_db.Types.{
  TokenEntry, RoleEntry, UpdateRolePayload, CreateRolePayload, IdPayload, Error,
}
use iot_edge_db.Rbac.State.{Rbac}
use iot_edge_db.Rbac.Cascade.{cascade_delete_role}
use iot_edge_db.Rbac.Staging.{is_field}
use iot_edge_db.Rbac.Below.{PermsOk-cascade}
use iot_edge_db.Rbac.Roles
use iot_edge_db.Rbac.Tables.{inc_rejected_rbac-IsConsistent, IsConsistent}
use iot_edge_db.Rbac.Rows.{RolesOk-add, RolesOk-restate, RolesOk-drop, PermsOk-put_role}

set_role_field-team :
    (p : UpdateRolePayload) (field : GoString) (r : RoleEntry)
    → (Roles.set_role_field p field r).team_id ≡ r.team_id
set_role_field-team p field r = elim (Bool-cases (is_field (bytes "database_pattern") field)) [
  | inl h ↦ rw h refl
  | inr h ↦ elim (Bool-cases (is_field (bytes "permissions") field)) [
    | inl k ↦ rw (h, k) refl
    | inr k ↦ rw (h, k) refl
  ]
]

set_role_fields-team :
    (p : UpdateRolePayload) (fields : List GoString) (r : RoleEntry)
    → (Roles.set_role_fields p fields r).team_id ≡ r.team_id
unfolding Roles.set_role_fields
set_role_fields-team p [] r = refl
set_role_fields-team p (field ∷ rest) r =
    set_role_fields-team p rest (Roles.set_role_field p field r) ∙ set_role_field-team p field r

module _ (tokens : Map ℤ TokenEntry) (f : Rbac) (c : IsConsistent tokens f) where
  insert_role-IsConsistent :
      (e : RoleEntry)
      → get f.roles e.id ≡ none
      → is_some (get f.teams e.team_id) ≡ true
      → IsConsistent tokens (Roles.insert_role f e).state
  insert_role-IsConsistent e fresh up = record {
    orgs = c.orgs;
    teams = c.teams;
    below = record {
      roles = RolesOk-add f.teams f.roles f.roles_by_team c.below.roles e fresh up;
      perms =
          PermsOk-put_role f.roles f.measurement_permissions f.measurement_perms_by_role
            c.below.perms e.id e;
      members = c.below.members;
    };
  }

  created_role-IsConsistent :
      (r : RoleEntry) (i : ℕ) (v : Option Error)
      → get f.roles (int64 i) ≡ none
      → IsConsistent tokens (Roles.create_validated f r i v).state
  created_role-IsConsistent r i (some x) fresh = inc_rejected_rbac-IsConsistent c
  created_role-IsConsistent r i none fresh = elim (Bool-cases (is_zero r.created_at_unix_nano)) [
    | inl h ↦ rw h (inc_rejected_rbac-IsConsistent c)
    | inr h ↦ elim (Bool-cases (is_some (get f.teams r.team_id))) [
      | inl k ↦ rw (h, k) (insert_role-IsConsistent (Roles.stamped_role r i) fresh k)
      | inr k ↦ rw (h, k) (inc_rejected_rbac-IsConsistent c)
    ]
  ]

  -- In a consistent state in which the log index is not yet a role's id, creating a role leaves the RBAC
  -- indices exact and no orphan, whatever the command holds.
  pub create_role-IsConsistent :
      (p : Option CreateRolePayload) (i : ℕ)
      → get f.roles (int64 i) ≡ none
      → IsConsistent tokens (Roles.apply_create_role f p i).state
  unfolding Roles.apply_create_role
  create_role-IsConsistent none i fresh = c
  create_role-IsConsistent (some p) i fresh = created_role-IsConsistent p.role i _ fresh

  update_role_found-IsConsistent :
      (p : UpdateRolePayload) (i : ℕ) (o : Option RoleEntry)
      → get f.roles p.id ≡ o
      → IsConsistent tokens (Roles.update_role_found f p i o).state
  update_role_found-IsConsistent p i none h = inc_rejected_rbac-IsConsistent c
  update_role_found-IsConsistent p i (some e) h = record {
    orgs = c.orgs;
    teams = c.teams;
    below = record {
      roles =
          RolesOk-restate f.teams f.roles f.roles_by_team c.below.roles p.id e _ h
            (set_role_fields-team p p.changed_fields e);
      perms =
          PermsOk-put_role f.roles f.measurement_permissions f.measurement_perms_by_role
            c.below.perms p.id _;
      members = c.below.members;
    };
  }

  update_role_checked-IsConsistent :
      (p : UpdateRolePayload) (i : ℕ) (v : Option Error)
      → IsConsistent tokens (Roles.update_role_checked f p i v).state
  update_role_checked-IsConsistent p i (some x) = inc_rejected_rbac-IsConsistent c
  update_role_checked-IsConsistent p i none = update_role_found-IsConsistent p i _ refl

  -- In a consistent state, updating a role leaves the RBAC indices exact and no orphan, whatever fields the
  -- command names.
  pub update_role-IsConsistent :
      (p : Option UpdateRolePayload) (i : ℕ)
      → IsConsistent tokens (Roles.apply_update_role f p i).state
  unfolding Roles.apply_update_role
  update_role-IsConsistent none i = c
  update_role-IsConsistent (some p) i = elim (Bool-cases (is_zero p.id)) [
    | inl h ↦ rw h (inc_rejected_rbac-IsConsistent c)
    | inr h ↦ rw h (update_role_checked-IsConsistent p i _)
  ]

  delete_role_found-IsConsistent :
      (id : ℤ) (o : Option RoleEntry)
      → get f.roles id ≡ o
      → IsConsistent tokens (Roles.delete_role_found f id o).state
  unfolding Roles.remove_role cascade_delete_role
  delete_role_found-IsConsistent id none h = c
  delete_role_found-IsConsistent id (some e) h = record {
    orgs = c.orgs;
    teams = c.teams;
    below = record {
      roles = RolesOk-drop f.teams f.roles f.roles_by_team c.below.roles id e h;
      perms =
          PermsOk-cascade f.roles f.measurement_permissions f.measurement_perms_by_role id
            c.below.perms;
      members = c.below.members;
    };
  }

  -- In a consistent state, deleting a role with its measurement permissions leaves the RBAC indices exact
  -- and no orphan, whatever the command holds.
  pub delete_role-IsConsistent :
      (p : Option IdPayload) (i : ℕ) → IsConsistent tokens (Roles.apply_delete_role f p i).state
  unfolding Roles.apply_delete_role
  delete_role-IsConsistent none i = c
  delete_role-IsConsistent (some p) i = elim (Bool-cases (is_zero p.id)) [
    | inl h ↦ rw h (inc_rejected_rbac-IsConsistent c)
    | inr h ↦ rw h (delete_role_found-IsConsistent p.id _ refl)
  ]
