-- ===== src/Snapshot/Rebuild.antt =====
-- The loops of Restore that rebuild an index from its table (internal/cluster/raft/fsm.go).
use iot_edge_db.Prelude.{◌≡◌, refl, true, some, List, arith, is_some, elem, GoString, ℤ, int_dec}
use iot_edge_db.GoMap.{
  Map, Index, empty, get, at, at-add, at-empty, get-put, get-empty, fold_map, read-fold_map,
  str_key, int_key,
}
use iot_edge_db.Types.{
  FileEntry, TokenEntry, OrganizationEntry, TeamEntry, RoleEntry, MeasurementPermissionEntry,
  TokenMembershipEntry,
}
use iot_edge_db.Manifest.Consistent.{in_database}
use iot_edge_db.Tokens.Prefixes.{prefix_ids, ids_at, elem-add_prefix}
use iot_edge_db.Tokens.Consistent.{points_to, has_prefix}
use iot_edge_db.Tokens.Consistent
use iot_edge_db.Rbac.Tables.{
  has_name, is_team, of_team, of_role, is_member, member_of_token, member_of_team,
}
use iot_edge_db.Snapshot.Restore.{
  index_file, index_prefix, index_token, index_organization, index_team, index_role,
  index_permission, index_pair, index_token_member, index_team_member,
}

-- The sets of ids, or of paths, below a parent.
pub read-index_file :
    (files : Map GoString FileEntry) (db : GoString) (p : GoString)
    → is_some (at (fold_map index_file files empty) db p) ≡ in_database db (get files p)
read-index_file files db p =
    read-fold_map index_file files (λ q x i. is_some (at i q x)) in_database (λ q. refl)
      (λ seen i k v e h q x. ground (arith, at-add i v.database k tt q x, h q x)) empty
      (λ q x. ground (arith, at-empty {V = Unit {0}} q x)) db p

pub read-index_role :
    (roles : Map ℤ RoleEntry) (t : ℤ) (id : ℤ)
    → is_some (at (fold_map index_role roles empty) t id) ≡ of_team t (get roles id)
read-index_role roles t id =
    read-fold_map index_role roles (λ q x i. is_some (at i q x)) of_team (λ q. refl)
      (λ seen i k v e h q x. ground (arith, at-add i v.team_id k tt q x, h q x)) empty
      (λ q x. ground (arith, at-empty {V = Unit {0}} q x)) t id

pub read-index_permission :
    (perms : Map ℤ MeasurementPermissionEntry) (r : ℤ) (id : ℤ)
    → is_some (at (fold_map index_permission perms empty) r id) ≡ of_role r (get perms id)
read-index_permission perms r id =
    read-fold_map index_permission perms (λ q x i. is_some (at i q x)) of_role (λ q. refl)
      (λ seen i k v e h q x. ground (arith, at-add i v.role_id k tt q x, h q x)) empty
      (λ q x. ground (arith, at-empty {V = Unit {0}} q x)) r id

pub read-index_token_member :
    (members : Map ℤ TokenMembershipEntry) (t : ℤ) (id : ℤ)
    → is_some (at (fold_map index_token_member members empty) t id)
      ≡ member_of_token t (get members id)
read-index_token_member members t id =
    read-fold_map index_token_member members (λ q x i. is_some (at i q x)) member_of_token
      (λ q. refl) (λ seen i k v e h q x. ground (arith, at-add i v.token_id k tt q x, h q x)) empty
      (λ q x. ground (arith, at-empty {V = Unit {0}} q x)) t id

pub read-index_team_member :
    (members : Map ℤ TokenMembershipEntry) (m : ℤ) (id : ℤ)
    → is_some (at (fold_map index_team_member members empty) m id)
      ≡ member_of_team m (get members id)
read-index_team_member members m id =
    read-fold_map index_team_member members (λ q x i. is_some (at i q x)) member_of_team (λ q. refl)
      (λ seen i k v e h q x. ground (arith, at-add i v.team_id k tt q x, h q x)) empty
      (λ q x. ground (arith, at-empty {V = Unit {0}} q x)) m id

-- The ids with a prefix.
pub read-index_prefix :
    (tokens : Map ℤ TokenEntry) (q : GoString) (id : ℤ)
    → elem int_dec id (prefix_ids (fold_map index_prefix tokens empty) q)
      ≡ has_prefix q (get tokens id)
unfolding prefix_ids ids_at elem
read-index_prefix tokens q id =
    read-fold_map index_prefix tokens (λ q x i. elem int_dec x (prefix_ids i q)) has_prefix
      (λ q. refl)
      (λ seen i k v e h q x. ground (arith, elem-add_prefix x k i v.token_prefix q, h q x)) empty
      (λ q x. ground (arith, get-empty {V = List ℤ} q)) q id

-- The names: an index by name is right when no two rows share one, which another index that is
-- right shows.
pub read-index_organization :
    (orgs : Map ℤ OrganizationEntry) (names : Map GoString ℤ)
    → ((q : GoString) (id : ℤ) → points_to id (get names q) ≡ has_name q (get orgs id))
    → (q : GoString) (id : ℤ)
    → points_to id (get (fold_map index_organization orgs empty) q) ≡ has_name q (get orgs id)
read-index_organization orgs names c q id =
    read-fold_map index_organization orgs (λ q x i. points_to x (get i q)) has_name (λ q. refl)
      (λ seen i k v e h q x. ground (arith, get-put i v.name k q, h q x, c v.name k, c v.name x))
      empty (λ q x. ground (arith, get-empty {V = ℤ} q)) q id

pub read-index_team :
    (teams : Map ℤ TeamEntry) (names : Index ℤ GoString ℤ)
    → ((o : ℤ) (q : GoString) (id : ℤ) → points_to id (at names o q) ≡ is_team o q (get teams id))
    → (o : ℤ) (q : GoString) (id : ℤ)
    → points_to id (at (fold_map index_team teams empty) o q) ≡ is_team o q (get teams id)
read-index_team teams names c o q id =
    read-fold_map index_team teams (λ (q : ℤ × GoString) x i. points_to x (at i q.0 q.1))
      (λ q. is_team q.0 q.1) (λ q. refl)
      (λ seen i k v e h q x. ground (
        arith,
        at-add i v.organization_id v.name k q.0 q.1,
        h q x,
        c v.organization_id v.name k,
        c v.organization_id v.name x,
      ))
      empty (λ q x. ground (arith, at-empty {V = ℤ} q.0 q.1)) (o, q) id

pub read-index_pair :
    (members : Map ℤ TokenMembershipEntry) (pairs : Index ℤ ℤ ℤ)
    → ((t m id : ℤ) → points_to id (at pairs t m) ≡ is_member t m (get members id))
    → (t m id : ℤ)
    → points_to id (at (fold_map index_pair members empty) t m) ≡ is_member t m (get members id)
read-index_pair members pairs c t m id =
    read-fold_map index_pair members (λ (q : ℤ × ℤ) x i. points_to x (at i q.0 q.1))
      (λ q. is_member q.0 q.1) (λ q. refl)
      (λ seen i k v e h q x. ground (
        arith,
        at-add i v.token_id v.team_id k q.0 q.1,
        h q x,
        c v.token_id v.team_id k,
        c v.token_id v.team_id x,
      ))
      empty (λ q x. ground (arith, at-empty {V = ℤ} q.0 q.1)) (t, m) id

abbrev pub HasDistinctNames : Map ℤ TokenEntry → Type 0
HasDistinctNames tokens =
    (id : ℤ) (e : TokenEntry)
    → get tokens id ≡ some e
    → (x : ℤ) → Consistent.has_name e.name (get tokens x) ≡ true
    → x ≡ id

pub read-index_token :
    (tokens : Map ℤ TokenEntry)
    → HasDistinctNames tokens
    → (q : GoString) (id : ℤ)
    → points_to id (get (fold_map index_token tokens empty) q)
      ≡ Consistent.has_name q (get tokens id)
read-index_token tokens c q id =
    read-fold_map index_token tokens (λ q x i. points_to x (get i q)) Consistent.has_name
      (λ q. refl) (λ seen i k v e h q x. ground (arith, get-put i v.name k q, h q x, c k v e x))
      empty (λ q x. ground (arith, get-empty {V = ℤ} q)) q id
