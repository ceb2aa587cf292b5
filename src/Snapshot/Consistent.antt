-- ===== src/Snapshot/Consistent.antt =====
-- The state that Restore leaves (internal/cluster/raft/fsm.go).
use iot_edge_db.Prelude.{◌≡◌, refl, sym, ◌∙◌, true, Option, none, some, arith, GoString, ℤ}
use iot_edge_db.GoMap.{Map, get, sift_passed, sift-IsPart, get_of_copied, IsPart, str_key, int_key}
use iot_edge_db.Types.{FileEntry, TokenEntry}
use iot_edge_db.Manifest.State.{Manifest}
use iot_edge_db.Manifest
use iot_edge_db.Tokens.Permissions.{validate_permission_string}
use iot_edge_db.Tokens.State.{Tokens, validate_token_entry, validate_token_hash_and_prefix}
use iot_edge_db.Tokens.Consistent
use iot_edge_db.Tokens.Consistent.{has_name}
use iot_edge_db.Rbac.State.{Rbac}
use iot_edge_db.Rbac.Tables.{IsConsistent}
use iot_edge_db.Fsm.State.{ClusterFsm}
use iot_edge_db.Fsm.Consistent.{IsAuthConsistent}
use iot_edge_db.Snapshot.{FsmSnapshot, snapshot}
use iot_edge_db.Snapshot.Restore.{
  accepts_file, accepts_token, unmarked, restored_files, restored_tokens, restored_orgs,
  restored_teams, restored_roles, restored_permissions, restored_memberships, restore_rbac,
  restore_tokens, restore_manifest, restore,
}
use iot_edge_db.Snapshot.Rebuild.{
  read-index_file, read-index_role, read-index_permission, read-index_token_member,
  read-index_team_member, read-index_prefix, read-index_organization, read-index_team,
  read-index_pair, read-index_token, HasDistinctNames,
}
use iot_edge_db.Snapshot.Kept.{
  restored_orgs-OrgsOk, restored_teams-TeamsOk, restored_roles-HasTeams,
  restored_permissions-HasRoles, restored_memberships-PairsOk,
}

-- Whatever the snapshot holds, RBAC tables that are restored from it are consistent with the tokens
-- they are restored beside: the indices are exact, no two organizations share a name, no two
-- teams of an organization, and every row's parent is there.
pub restore_rbac-IsConsistent :
    (f : Rbac) (tokens : Map ℤ TokenEntry) (s : FsmSnapshot)
    → IsConsistent tokens (restore_rbac f tokens s)
unfolding restore_rbac
restore_rbac-IsConsistent f tokens s =
    let orgs = restored_orgs s in
    let teams = restored_teams s orgs.kept in
    let roles = restored_roles s teams.kept in
    let perms = restored_permissions s roles.kept in
    let members = restored_memberships s tokens teams.kept in
    let o = restored_orgs-OrgsOk s in
    let t = restored_teams-TeamsOk s orgs.kept in
    let m = restored_memberships-PairsOk s tokens teams.kept in
    record {
      orgs = record { named = read-index_organization orgs.kept orgs.seen o.named };
      teams = record { named = read-index_team teams.kept teams.seen t.named; parent = t.parent };
      below = record {
        roles = record {
          indexed = read-index_role roles.kept;
          parent = restored_roles-HasTeams s teams.kept;
        };
        perms = record {
          indexed = read-index_permission perms.kept;
          parent = restored_permissions-HasRoles s roles.kept;
        };
        members = record {
          paired = read-index_pair members.kept members.seen m.paired;
          token_indexed = read-index_token_member members.kept;
          team_indexed = read-index_team_member members.kept;
          token_parent = m.token_parent;
          team_parent = m.team_parent;
        };
      };
    }

-- The tokens of the snapshot stand under their ids, and no two of them share a name.
pub record HasSoundTokens (s : FsmSnapshot) : Type 0 where
  pub keyed : (id : ℤ) (e : TokenEntry) → get s.tokens id ≡ some (some e) → e.id ≡ id
  pub named :
      (a b : ℤ) (x y : TokenEntry)
      → get s.tokens a ≡ some (some x)
      → get s.tokens b ≡ some (some y)
      → x.name ≡ y.name
      → a ≡ b

hash_of_valid :
    (e : TokenEntry)
    → validate_token_entry e ≡ none
    → validate_token_hash_and_prefix e.token_hash e.token_prefix ≡ none
unfolding validate_token_entry
hash_of_valid e h = ground arith

permissions_of_valid :
    (e : TokenEntry)
    → validate_token_entry e ≡ none
    → validate_permission_string e.permissions ≡ none
unfolding validate_token_entry
permissions_of_valid e h = ground arith

restored_token :
    (s : FsmSnapshot) (id : ℤ) (e : TokenEntry)
    → get (restored_tokens s).kept id ≡ some e
    → validate_token_entry e ≡ none
unfolding restored_tokens
restored_token s id e h = ground (arith, sift_passed s.tokens accepts_token unmarked id e h)

restored_tokens-IsPart : (s : FsmSnapshot) → IsPart s.tokens (restored_tokens s).kept
unfolding restored_tokens
restored_tokens-IsPart s = sift-IsPart s.tokens accepts_token unmarked tt

holder_of_name :
    (s : FsmSnapshot) (id : ℤ) (e : TokenEntry) (x : ℤ) (o : Option TokenEntry)
    → HasSoundTokens s
    → get (restored_tokens s).kept id ≡ some e
    → get (restored_tokens s).kept x ≡ o
    → has_name e.name o ≡ true
    → x ≡ id
holder_of_name s id e x none c h k n = cc
holder_of_name s id e x (some w) c h k n =
    c.named x id w e (restored_tokens-IsPart s x w k) (restored_tokens-IsPart s id e h)
      (ground arith)

restored_tokens-HasDistinctNames :
    (s : FsmSnapshot) → HasSoundTokens s → HasDistinctNames (restored_tokens s).kept
restored_tokens-HasDistinctNames s c id e h x =
    holder_of_name s id e x (get (restored_tokens s).kept x) c h refl

-- When the tokens of the snapshot stand under their ids and have names of their own, the tokens that
-- are restored are consistent: their indices by name and by prefix are exact, and each has a
-- valid hash, prefix and permissions.
pub restore_tokens-IsConsistent :
    (f : Tokens) (s : FsmSnapshot) → HasSoundTokens s → Consistent.IsConsistent (restore_tokens f s)
unfolding restore_tokens
restore_tokens-IsConsistent f s c =
    let kept = (restored_tokens s).kept in
    record {
      keyed = λ id e h. c.keyed id e (restored_tokens-IsPart s id e h);
      named = read-index_token kept (restored_tokens-HasDistinctNames s c);
      prefixed = read-index_prefix kept;
      hashed = λ id e h. hash_of_valid e (restored_token s id e h);
      permitted = λ id e h. permissions_of_valid e (restored_token s id e h);
    }

-- The snapshot of a consistent state has sound tokens.
pub snapshot-HasSoundTokens : (f : ClusterFsm) → IsAuthConsistent f → HasSoundTokens (snapshot f)
unfolding snapshot
snapshot-HasSoundTokens f c = record {
  keyed = λ id e h. c.auth.keyed id e (get_of_copied f.auth.tokens id e h);
  named = λ a b x y h k n. ground (
    arith,
    c.auth.named x.name a,
    c.auth.named x.name b,
    get_of_copied f.auth.tokens a x h,
    get_of_copied f.auth.tokens b y k,
  );
}

-- When each file of the snapshot stands under its path, the manifest that is restored is consistent: its
-- paths are valid, and its index by database is sound and complete.
pub restore_manifest-IsConsistent :
    (m : Manifest) (s : FsmSnapshot)
    → ((p : GoString) (e : FileEntry) → get s.files p ≡ some (some e) → e.path ≡ p)
    → Manifest.Consistent.IsConsistent (restore_manifest m s)
unfolding restore_manifest restored_files
restore_manifest-IsConsistent m s keyed =
    let kept = (restored_files s).kept in
    record {
      valid = λ p e h. ground (arith, sift_passed s.files accepts_file unmarked p e h);
      keyed = λ p e h. keyed p e (sift-IsPart s.files accepts_file unmarked tt p e h);
      sound = λ db p h. sym (read-index_file kept db p) ∙ h;
      complete = λ db p n h. read-index_file kept db p ∙ h;
    }

-- The snapshot of a consistent manifest has each file under its path.
pub snapshot-keyed :
    (f : ClusterFsm)
    → Manifest.Consistent.IsConsistent f.manifest
    → (p : GoString) (e : FileEntry) → get (snapshot f).files p ≡ some (some e)
    → e.path ≡ p
unfolding snapshot
snapshot-keyed f c p e h = c.keyed p e (get_of_copied f.manifest.files p e h)

-- Restore leaves the whole authorization state consistent when the tokens of the snapshot stand
-- under their ids and have names of their own, whatever else the snapshot holds: dangling
-- references, duplicate names, invalid rows and nil entries are sifted out.
pub restore-IsAuthConsistent :
    (f : ClusterFsm) (s : FsmSnapshot)
    → HasSoundTokens s
    → IsAuthConsistent (restore f (some s)).state
unfolding restore
restore-IsAuthConsistent f s c = record {
  auth = restore_tokens-IsConsistent f.auth s c;
  rbac = restore_rbac-IsConsistent f.rbac (restore_tokens f.auth s).tokens s;
}
