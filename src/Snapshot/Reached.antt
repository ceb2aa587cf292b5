-- ===== src/Snapshot/Reached.antt =====
-- The life of a node: entries of the Raft log, and restarts from a snapshot (Apply, Snapshot and Restore in
-- internal/cluster/raft/fsm.go).
use iot_edge_db.Prelude.{ℕ, ℤ, ◌≡◌, refl, Option, none, some, int64, ◌<◌, ◌^◌, arith}
use iot_edge_db.GoMap.{
  Map, empty, get, IsPart, sift-IsPart, get_of_copied, copied, str_key, int_key,
}
use iot_edge_db.Manifest
use iot_edge_db.Fsm.Commands.{Codec}
use iot_edge_db.Fsm.State.{ClusterFsm, new_cluster_fsm, Log, apply}
use iot_edge_db.Fsm.Consistent.{
  IsAuthConsistent, IsFresh, apply-IsAuthConsistent, new_cluster_fsm-IsAuthConsistent,
}
use iot_edge_db.Fsm.Keeps.{apply-IsConsistent}
use iot_edge_db.Fsm.FreshIds.{IsFreshAbove, apply-IsFreshAbove, new_cluster_fsm-IsFresh}
use iot_edge_db.Snapshot.{snapshot}
use iot_edge_db.Snapshot.Restore.{
  unmarked, accepts_token, accepts_organization, index_organization, accepts_team, index_team,
  accepts_role, accepts_permission, accepts_membership, index_pair, restored_tokens, restored_orgs,
  restored_teams, restored_roles, restored_permissions, restored_memberships, restore,
  restore_tokens, restore_rbac,
}
use iot_edge_db.Snapshot.Consistent.{
  snapshot-HasSoundTokens, snapshot-keyed, restore-IsAuthConsistent, restore_manifest-IsConsistent,
}

-- A node has applied the log up to an index and is in a state: it starts empty, applies entries with
-- rising indices below 2 ^ 63, and restarts from a snapshot of its state, over any state.
pub data Reached (codec : Codec) : ℕ → ClusterFsm → Type 0 where
  start : Reached codec 0 new_cluster_fsm
  applied :
      (n : ℕ) (f : ClusterFsm) (log : Log)
      → Reached codec n f
      → n < log.index
      → log.index < 2 ^ 63
      → Reached codec log.index (apply codec f log).state
  restarted :
      (n : ℕ) (f g : ClusterFsm)
      → Reached codec n f
      → Reached codec n (restore g (some (snapshot f))).state

-- A key that is unused stays unused in a part of the copy.
part-unused :
    {V : Type 0}
    → (t kept : Map ℤ V) (k : ℤ) (o : Option V) → IsPart (copied some t) kept
    → get t k ≡ none
    → get kept k ≡ o
    → o ≡ none
part-unused t kept k none part h e = refl
part-unused t kept k (some v) part h e = ground (arith, get_of_copied t k v (part k v e))

restore-IsFresh :
    (g f : ClusterFsm) (k : ℤ) → IsFresh f k → IsFresh (restore g (some (snapshot f))).state k
unfolding restore restore_tokens restore_rbac restored_tokens restored_orgs restored_teams
    restored_roles restored_permissions restored_memberships snapshot
restore-IsFresh g f k u =
    let s = snapshot f in
    let tokens = (restored_tokens s).kept in
    let orgs = (restored_orgs s).kept in
    let teams = (restored_teams s orgs).kept in
    let roles = (restored_roles s teams).kept in
    record {
      token =
          part-unused f.auth.tokens tokens k (get tokens k)
            (sift-IsPart s.tokens accepts_token unmarked tt) u.token refl;
      rbac = record {
        organization =
            part-unused f.rbac.organizations orgs k (get orgs k)
              (sift-IsPart s.organizations accepts_organization index_organization empty)
              u.rbac.organization refl;
        team =
            part-unused f.rbac.teams teams k (get teams k)
              (sift-IsPart s.teams (accepts_team orgs) index_team empty) u.rbac.team refl;
        role =
            part-unused f.rbac.roles roles k (get roles k)
              (sift-IsPart s.roles (accepts_role teams) unmarked tt) u.rbac.role refl;
        permission =
            part-unused f.rbac.measurement_permissions (restored_permissions s roles).kept k
              (get (restored_permissions s roles).kept k)
              (sift-IsPart s.measurement_permissions (accepts_permission roles) unmarked tt)
              u.rbac.permission refl;
        membership =
            part-unused f.rbac.token_memberships (restored_memberships s tokens teams).kept k
              (get (restored_memberships s tokens teams).kept k)
              (sift-IsPart s.token_memberships (accepts_membership tokens teams) index_pair empty)
              u.rbac.membership refl;
      };
    }

-- What holds at every point of the life of a node.
pub record IsHealthy (n : ℕ) (f : ClusterFsm) : Type 0 where
  pub auth : IsAuthConsistent f
  pub manifest : Manifest.Consistent.IsConsistent f.manifest
  pub fresh : IsFreshAbove n f

restored_manifest :
    (g f : ClusterFsm)
    → Manifest.Consistent.IsConsistent f.manifest
    → Manifest.Consistent.IsConsistent (restore g (some (snapshot f))).state.manifest
unfolding restore
restored_manifest g f c = restore_manifest-IsConsistent g.manifest (snapshot f) (snapshot-keyed f c)

restore-IsHealthy :
    (g f : ClusterFsm) {n : ℕ} → IsHealthy n f → IsHealthy n (restore g (some (snapshot f))).state
restore-IsHealthy g f h = record {
  auth = restore-IsAuthConsistent g (snapshot f) (snapshot-HasSoundTokens f h.auth);
  manifest = restored_manifest g f h.manifest;
  fresh = λ m lt w. restore-IsFresh g f (int64 m) (h.fresh m lt w);
}

-- At every point of a node's life, whatever the entries of the log hold and however often it restarts from
-- a snapshot, the tokens and the RBAC tables are consistent with their indices and with each other,
-- the manifest is consistent with its index, and no index above the last applied one is in use
-- as an id.
pub Reached-IsHealthy : (codec : Codec) {n : ℕ} {f : ClusterFsm} → Reached codec n f → IsHealthy n f
Reached-IsHealthy codec start = record {
  auth = new_cluster_fsm-IsAuthConsistent;
  manifest = Manifest.Consistent.new_manifest-IsConsistent;
  fresh = λ m lt w. new_cluster_fsm-IsFresh (int64 m);
}
Reached-IsHealthy codec (applied n f log r lt w) =
    let h = Reached-IsHealthy codec r in
    record {
      auth = apply-IsAuthConsistent codec f log h.auth (h.fresh log.index lt w);
      manifest = apply-IsConsistent codec f log h.manifest;
      fresh = apply-IsFreshAbove codec f log lt w h.fresh;
    }
Reached-IsHealthy codec (restarted n f g r) = restore-IsHealthy g f (Reached-IsHealthy codec r)
