-- ===== src/Snapshot/RoundTrip.antt =====
-- Restore after Snapshot (internal/cluster/raft/fsm.go).
use iot_edge_db.Prelude.{◌≡◌, refl, some, arith, GoString, ℤ}
use iot_edge_db.GoMap.{Map, get, get-copied, kept_of_unmarked, str_key, int_key}
use iot_edge_db.Types.{NodeInfo, TeamEntry, RoleEntry}
use iot_edge_db.Manifest
use iot_edge_db.Fsm.State.{ClusterFsm}
use iot_edge_db.Fsm.Consistent.{IsAuthConsistent}
use iot_edge_db.Snapshot.{snapshot}
use iot_edge_db.Snapshot.Restore.{
  unmarked, accepts_file, accepts_token, accepts_role, accepts_permission, restored_files,
  restored_tokens, restored_orgs, restored_teams, restored_roles, restored_permissions, restore,
  restore_manifest, restore_tokens, restore_rbac,
}
use iot_edge_db.Snapshot.Rows.{
  HasValidRows, restored_organizations, restored_same_teams, restored_same_memberships,
}

-- The primary tables of the two states hold the same rows.
pub record SameTables (f g : ClusterFsm) : Type 0 where
  pub nodes : (id : GoString) → get g.node_table.nodes id ≡ get f.node_table.nodes id
  pub primary_writer : g.node_table.primary_writer_id ≡ f.node_table.primary_writer_id
  pub active_compactor : g.node_table.active_compactor_id ≡ f.node_table.active_compactor_id
  pub files : (p : GoString) → get g.manifest.files p ≡ get f.manifest.files p
  pub tokens : (id : ℤ) → get g.auth.tokens id ≡ get f.auth.tokens id
  pub organizations : (id : ℤ) → get g.rbac.organizations id ≡ get f.rbac.organizations id
  pub teams : (id : ℤ) → get g.rbac.teams id ≡ get f.rbac.teams id
  pub roles : (id : ℤ) → get g.rbac.roles id ≡ get f.rbac.roles id
  pub permissions :
      (id : ℤ) → get g.rbac.measurement_permissions id ≡ get f.rbac.measurement_permissions id
  pub memberships : (id : ℤ) → get g.rbac.token_memberships id ≡ get f.rbac.token_memberships id

module _ (f : ClusterFsm) (ok : HasValidRows f) where
  restored_same_nodes : (id : GoString) → get (snapshot f).nodes id ≡ get f.node_table.nodes id
  unfolding snapshot
  restored_same_nodes id = ground (arith, get-copied (λ (n : NodeInfo). n) f.node_table.nodes id)

  restored_same_files :
      Manifest.Consistent.IsConsistent f.manifest
      → (p : GoString) → get (restored_files (snapshot f)).kept p ≡ get f.manifest.files p
  unfolding restored_files snapshot
  restored_same_files m =
      kept_of_unmarked f.manifest.files accepts_file unmarked
        (λ p e h. ground (arith, m.valid p e h))

  restored_same_tokens :
      (id : ℤ) → get (restored_tokens (snapshot f)).kept id ≡ get f.auth.tokens id
  unfolding restored_tokens snapshot
  restored_same_tokens =
      kept_of_unmarked f.auth.tokens accepts_token unmarked
        (λ id e h. ground (arith, ok.token id e h))

  module _ (c : IsAuthConsistent f) where
    restored_same_roles :
        (teams : Map ℤ TeamEntry)
        → ((id : ℤ) → get teams id ≡ get f.rbac.teams id)
        → (id : ℤ) → get (restored_roles (snapshot f) teams).kept id ≡ get f.rbac.roles id
    unfolding restored_roles snapshot
    restored_same_roles teams same =
        kept_of_unmarked f.rbac.roles (accepts_role teams) unmarked (λ id e h.
          ground (arith, ok.role id e h, c.rbac.below.roles.parent id e h, same e.team_id))

    restored_same_permissions :
        (roles : Map ℤ RoleEntry)
        → ((id : ℤ) → get roles id ≡ get f.rbac.roles id)
        → (id : ℤ)
        → get (restored_permissions (snapshot f) roles).kept id
          ≡ get f.rbac.measurement_permissions id
    unfolding restored_permissions snapshot
    restored_same_permissions roles same =
        kept_of_unmarked f.rbac.measurement_permissions (accepts_permission roles) unmarked
          (λ id e h.
            ground (arith, ok.permission id e h, c.rbac.below.perms.parent id e h, same e.role_id))

-- Restoring the snapshot of a state, into whatever state, brings back every table row for row, when the
-- state is consistent and each of its rows passes the validation of Restore.
pub restore-snapshot :
    (g f : ClusterFsm)
    → IsAuthConsistent f
    → Manifest.Consistent.IsConsistent f.manifest
    → HasValidRows f
    → SameTables f (restore g (some (snapshot f))).state
unfolding restore restore_manifest restore_tokens restore_rbac snapshot
restore-snapshot g f c m ok =
    let s = snapshot f in
    let tokens = restored_same_tokens f ok in
    let orgs = restored_organizations f c ok in
    let kept_teams = (restored_teams s (restored_orgs s).kept).kept in
    let teams = restored_same_teams f c ok (restored_orgs s).kept orgs in
    let roles = restored_same_roles f ok c kept_teams teams in
    record {
      nodes = restored_same_nodes f ok;
      primary_writer = refl;
      active_compactor = refl;
      files = restored_same_files f ok m;
      tokens = tokens;
      organizations = orgs;
      teams = teams;
      roles = roles;
      permissions = restored_same_permissions f ok c (restored_roles s kept_teams).kept roles;
      memberships =
          restored_same_memberships f c ok (restored_tokens s).kept kept_teams tokens teams;
    }
