-- ===== src/Rbac/Rows.antt =====
-- What adding, changing and removing a row with its index entry does to the RBAC tables
-- (internal/cluster/raft/fsm_rbac.go).
use iot_edge_db.Prelude.{◌≡◌, true, none, some, arith, is_some, ℤ, GoString}
use iot_edge_db.GoMap.{
  empty, get-empty, at-empty, Map, Index, get, put, remove, at, add, drop, rename, get-put,
  get-remove, at-add, at-drop, at-rename, int_key, str_key,
}
use iot_edge_db.Types.{
  OrganizationEntry, TeamEntry, RoleEntry, MeasurementPermissionEntry, TokenMembershipEntry,
}
use iot_edge_db.Rbac.State.{new_rbac}
use iot_edge_db.Rbac.Tables.{OrgsOk, TeamsOk, RolesOk, PermsOk, IsConsistent}

module _ (orgs : Map ℤ OrganizationEntry) (by_name : Map GoString ℤ) (c : OrgsOk orgs by_name) where
  pub OrgsOk-add :
      (e : OrganizationEntry)
      → get orgs e.id ≡ none
      → get by_name e.name ≡ none
      → OrgsOk (put orgs e.id e) (put by_name e.name e.id)
  OrgsOk-add e fresh free = record {
    named =
        λ q id. ground (arith, get-put orgs e.id e id, get-put by_name e.name e.id q, c.named q id);
  }

  pub OrgsOk-restate :
      (i : ℤ) (old e : OrganizationEntry)
      → get orgs i ≡ some old
      → e.name ≡ old.name
      → OrgsOk (put orgs i e) by_name
  OrgsOk-restate i old e h k = record {
    named = λ q id. ground (arith, get-put orgs i e id, c.named q id);
  }

  pub OrgsOk-rename :
      (i : ℤ) (old e : OrganizationEntry)
      → get orgs i ≡ some old
      → get by_name e.name ≡ none
      → OrgsOk (put orgs i e) (put (remove by_name old.name) e.name i)
  OrgsOk-rename i old e h free = record {
    named = λ q id. ground (
      arith,
      get-put orgs i e id,
      get-put (remove by_name old.name) e.name i q,
      get-remove by_name old.name q,
      c.named q id,
      c.named q i,
      c.named old.name id,
      c.named old.name i,
    );
  }

module _ (orgs : Map ℤ OrganizationEntry) (teams : Map ℤ TeamEntry) (by_org : Index ℤ GoString ℤ)
    (c : TeamsOk orgs teams by_org) where
  pub TeamsOk-put_org : (i : ℤ) (o : OrganizationEntry) → TeamsOk (put orgs i o) teams by_org
  TeamsOk-put_org i o = record {
    named = c.named;
    parent = λ id e h. ground (arith, get-put orgs i o e.organization_id, c.parent id e);
  }

  pub TeamsOk-add :
      (e : TeamEntry)
      → get teams e.id ≡ none
      → at by_org e.organization_id e.name ≡ none
      → is_some (get orgs e.organization_id) ≡ true
      → TeamsOk orgs (put teams e.id e) (add by_org e.organization_id e.name e.id)
  TeamsOk-add e fresh free up = record {
    named = λ o q id. ground (
      arith,
      get-put teams e.id e id,
      at-add by_org e.organization_id e.name e.id o q,
      c.named o q id,
    );
    parent = λ id x h. ground (arith, get-put teams e.id e id, c.parent id x);
  }

  pub TeamsOk-restate :
      (i : ℤ) (old e : TeamEntry)
      → get teams i ≡ some old
      → e.name ≡ old.name
      → e.organization_id ≡ old.organization_id
      → TeamsOk orgs (put teams i e) by_org
  TeamsOk-restate i old e h k l = record {
    named = λ o q id. ground (arith, get-put teams i e id, c.named o q id);
    parent = λ id x j. ground (arith, get-put teams i e id, c.parent id x, c.parent i old);
  }

  pub TeamsOk-rename :
      (i : ℤ) (old e : TeamEntry)
      → get teams i ≡ some old
      → at by_org old.organization_id e.name ≡ none
      → e.organization_id ≡ old.organization_id
      → TeamsOk orgs (put teams i e) (rename by_org old.organization_id old.name e.name i)
  TeamsOk-rename i old e h free l = record {
    named = λ o q id. ground (
      arith,
      get-put teams i e id,
      at-rename by_org old.organization_id old.name e.name i o q,
      c.named o q id,
      c.named o q i,
      c.named old.organization_id old.name i,
    );
    parent = λ id x j. ground (arith, get-put teams i e id, c.parent id x, c.parent i old);
  }

module _ (teams : Map ℤ TeamEntry) (roles : Map ℤ RoleEntry) (by_team : Index ℤ ℤ Unit)
    (c : RolesOk teams roles by_team) where
  pub RolesOk-put_team : (i : ℤ) (t : TeamEntry) → RolesOk (put teams i t) roles by_team
  RolesOk-put_team i t = record {
    indexed = c.indexed;
    parent = λ id e h. ground (arith, get-put teams i t e.team_id, c.parent id e);
  }

  pub RolesOk-add :
      (e : RoleEntry)
      → get roles e.id ≡ none
      → is_some (get teams e.team_id) ≡ true
      → RolesOk teams (put roles e.id e) (add by_team e.team_id e.id tt)
  RolesOk-add e fresh up = record {
    indexed = λ t id.
        ground
          (arith, get-put roles e.id e id, at-add by_team e.team_id e.id tt t id, c.indexed t id);
    parent = λ id x h. ground (arith, get-put roles e.id e id, c.parent id x);
  }

  pub RolesOk-restate :
      (i : ℤ) (old e : RoleEntry)
      → get roles i ≡ some old
      → e.team_id ≡ old.team_id
      → RolesOk teams (put roles i e) by_team
  RolesOk-restate i old e h k = record {
    indexed = λ t id. ground (arith, get-put roles i e id, c.indexed t id);
    parent = λ id x j. ground (arith, get-put roles i e id, c.parent id x, c.parent i old);
  }

  pub RolesOk-drop :
      (i : ℤ) (e : RoleEntry)
      → get roles i ≡ some e
      → RolesOk teams (remove roles i) (drop by_team e.team_id i)
  RolesOk-drop i e h = record {
    indexed = λ t id.
        ground (arith, get-remove roles i id, at-drop by_team e.team_id i t id, c.indexed t id);
    parent = λ id x j. ground (arith, get-remove roles i id, c.parent id x);
  }

module _ (roles : Map ℤ RoleEntry) (perms : Map ℤ MeasurementPermissionEntry)
    (by_role : Index ℤ ℤ Unit) (c : PermsOk roles perms by_role) where
  pub PermsOk-put_role : (i : ℤ) (r : RoleEntry) → PermsOk (put roles i r) perms by_role
  PermsOk-put_role i r = record {
    indexed = c.indexed;
    parent = λ id e h. ground (arith, get-put roles i r e.role_id, c.parent id e);
  }

  pub PermsOk-add :
      (e : MeasurementPermissionEntry)
      → get perms e.id ≡ none
      → is_some (get roles e.role_id) ≡ true
      → PermsOk roles (put perms e.id e) (add by_role e.role_id e.id tt)
  PermsOk-add e fresh up = record {
    indexed = λ t id.
        ground
          (arith, get-put perms e.id e id, at-add by_role e.role_id e.id tt t id, c.indexed t id);
    parent = λ id x h. ground (arith, get-put perms e.id e id, c.parent id x);
  }

  pub PermsOk-drop :
      (i : ℤ) (e : MeasurementPermissionEntry)
      → get perms i ≡ some e
      → PermsOk roles (remove perms i) (drop by_role e.role_id i)
  PermsOk-drop i e h = record {
    indexed = λ t id.
        ground (arith, get-remove perms i id, at-drop by_role e.role_id i t id, c.indexed t id);
    parent = λ id x j. ground (arith, get-remove perms i id, c.parent id x);
  }

pub new_rbac-IsConsistent : IsConsistent empty new_rbac
new_rbac-IsConsistent = record {
  orgs = record {
    named = λ q id. ground (arith, get-empty {V = OrganizationEntry} id, get-empty {V = ℤ} q);
  };
  teams = record {
    named = λ o q id. ground (arith, at-empty {V = ℤ} o q, get-empty {V = TeamEntry} id);
    parent = λ id e h. ground (arith, get-empty {V = TeamEntry} id);
  };
  below = record {
    roles = record {
      indexed = λ t id. ground (arith, at-empty {V = Unit} t id, get-empty {V = RoleEntry} id);
      parent = λ id e h. ground (arith, get-empty {V = RoleEntry} id);
    };
    perms = record {
      indexed = λ r id.
          ground (arith, at-empty {V = Unit} r id, get-empty {V = MeasurementPermissionEntry} id);
      parent = λ id e h. ground (arith, get-empty {V = MeasurementPermissionEntry} id);
    };
    members = record {
      paired =
          λ t m id. ground (arith, at-empty {V = ℤ} t m, get-empty {V = TokenMembershipEntry} id);
      token_indexed =
          λ t id. ground (arith, at-empty {V = Unit} t id, get-empty {V = TokenMembershipEntry} id);
      team_indexed =
          λ m id. ground (arith, at-empty {V = Unit} m id, get-empty {V = TokenMembershipEntry} id);
      token_parent = λ id e h. ground (arith, get-empty {V = TokenMembershipEntry} id);
      team_parent = λ id e h. ground (arith, get-empty {V = TokenMembershipEntry} id);
    };
  };
}
