-- ===== src/Rbac/MemberRows.antt =====
-- What adding and removing a membership, and removing a token with its memberships, does to the table
-- of memberships and its three indices (internal/cluster/raft/fsm_rbac.go; applyDeleteToken in
-- internal/cluster/raft/fsm.go).
use iot_edge_db.Prelude.{◌≡◌, ap, sym, subst, true, none, some, arith, is_some, ℤ, if◌then◌else◌}
use iot_edge_db.GoMap.{
  Map, Index, get, put, remove, keys, inner, at, add, drop, get-put, get-remove, at-add, at-remove,
  elem-keys-inner, int_key,
}
use iot_edge_db.Types.{TokenEntry, TeamEntry, TokenMembershipEntry}
use iot_edge_db.Rbac.State.{Rbac}
use iot_edge_db.Rbac.Cascade.{delete_token_members, cascade_members_of_token}
use iot_edge_db.Rbac.Tables.{MembersOk, IsConsistent, member_of_token}
use iot_edge_db.Rbac.MemberLoops.{
  get-delete_token_members, delete_token_members-indexed, delete_token_members_lem, IsPaired-drop,
  IsTokenIndexed-drop, IsTeamIndexed-drop,
}

module _ (tokens : Map ℤ TokenEntry) (teams : Map ℤ TeamEntry)
    (members : Map ℤ TokenMembershipEntry) (by_pair : Index ℤ ℤ ℤ)
    (by_token by_team : Index ℤ ℤ Unit)
    (c : MembersOk tokens teams members by_pair by_token by_team) where
  pub MembersOk-put_team :
      (i : ℤ) (t : TeamEntry) → MembersOk tokens (put teams i t) members by_pair by_token by_team
  MembersOk-put_team i t = record {
    paired = c.paired;
    token_indexed = c.token_indexed;
    team_indexed = c.team_indexed;
    token_parent = c.token_parent;
    team_parent = λ id e h. ground (arith, get-put teams i t e.team_id, c.team_parent id e);
  }

  pub MembersOk-put_token :
      (i : ℤ) (t : TokenEntry) → MembersOk (put tokens i t) teams members by_pair by_token by_team
  MembersOk-put_token i t = record {
    paired = c.paired;
    token_indexed = c.token_indexed;
    team_indexed = c.team_indexed;
    token_parent = λ id e h. ground (arith, get-put tokens i t e.token_id, c.token_parent id e);
    team_parent = c.team_parent;
  }

  pub MembersOk-add :
      (e : TokenMembershipEntry)
      → get members e.id ≡ none
      → at by_pair e.token_id e.team_id ≡ none
      → is_some (get tokens e.token_id) ≡ true
      → is_some (get teams e.team_id) ≡ true
      → MembersOk tokens teams
          (put members e.id e)
          (add by_pair e.token_id e.team_id e.id)
          (add by_token e.token_id e.id tt)
          (add by_team e.team_id e.id tt)
  MembersOk-add e fresh free up up' = record {
    paired = λ t m id. ground (
      arith,
      get-put members e.id e id,
      at-add by_pair e.token_id e.team_id e.id t m,
      c.paired t m id,
    );
    token_indexed = λ t id. ground (
      arith,
      get-put members e.id e id,
      at-add by_token e.token_id e.id tt t id,
      c.token_indexed t id,
    );
    team_indexed = λ m id. ground (
      arith,
      get-put members e.id e id,
      at-add by_team e.team_id e.id tt m id,
      c.team_indexed m id,
    );
    token_parent = λ id x h. ground (arith, get-put members e.id e id, c.token_parent id x);
    team_parent = λ id x h. ground (arith, get-put members e.id e id, c.team_parent id x);
  }

  pub MembersOk-drop :
      (i : ℤ) (e : TokenMembershipEntry)
      → get members i ≡ some e
      → MembersOk tokens teams
          (remove members i)
          (drop by_pair e.token_id e.team_id)
          (drop by_token e.token_id i)
          (drop by_team e.team_id i)
  MembersOk-drop i e h = record {
    paired = IsPaired-drop members i e h by_pair c.paired;
    token_indexed = IsTokenIndexed-drop members i e h by_token c.token_indexed;
    team_indexed = IsTeamIndexed-drop members i e h by_team c.team_indexed;
    token_parent = λ id x k. ground (arith, get-remove members i id, c.token_parent id x);
    team_parent = λ id x k. ground (arith, get-remove members i id, c.team_parent id x);
  }

MembersOk-cascade :
    (tokens : Map ℤ TokenEntry) (f : Rbac) (t : ℤ)
    → MembersOk tokens f.teams f.token_memberships f.token_memberships_by_pair
        f.token_memberships_by_token f.token_memberships_by_team
    → let g = delete_token_members f (keys (inner f.token_memberships_by_token t)) in
      MembersOk
        (remove tokens t)
        f.teams
        g.token_memberships
        g.token_memberships_by_pair
        (remove f.token_memberships_by_token t)
        g.token_memberships_by_team
MembersOk-cascade tokens f t c =
    let ids = keys (inner f.token_memberships_by_token t) in
    let (paired, indexed) = delete_token_members-indexed f ids c.paired c.team_indexed in
    record {
      paired = paired;
      token_indexed = λ m id. ground (
        arith,
        at-remove f.token_memberships_by_token t m id,
        get-delete_token_members f ids id,
        elem-keys-inner f.token_memberships_by_token t id,
        c.token_indexed m id,
        c.token_indexed t id,
      );
      team_indexed = indexed;
      token_parent = λ id e h. ground (
        arith,
        get-delete_token_members f ids id,
        elem-keys-inner f.token_memberships_by_token t id,
        get-remove tokens t e.token_id,
        c.token_indexed t id,
        c.token_parent id e,
      );
      team_parent = λ id e h. ground (arith, get-delete_token_members f ids id, c.team_parent id e);
    }

cascade_members_of_token_lem :
    (f : Rbac) (t : ℤ)
    → let g = delete_token_members f (keys (inner f.token_memberships_by_token t)) in
      cascade_members_of_token f t ≡ record f {
        token_memberships = g.token_memberships;
        token_memberships_by_pair = g.token_memberships_by_pair;
        token_memberships_by_team = g.token_memberships_by_team;
        token_memberships_by_token = remove f.token_memberships_by_token t;
      }
unfolding cascade_members_of_token
cascade_members_of_token_lem f t =
    ap
      (λ (g : Rbac). record g {
        token_memberships_by_token = remove g.token_memberships_by_token t;
      })
      (delete_token_members_lem f (keys (inner f.token_memberships_by_token t)))

-- In a consistent state, the cascade that goes with the deletion of a token leaves a state that is
-- consistent with the tokens without it: no membership is left that refers to it, and all three
-- indices of the memberships are exact.
pub cascade_members_of_token-IsConsistent :
    (tokens : Map ℤ TokenEntry) (f : Rbac) (t : ℤ)
    → IsConsistent tokens f
    → IsConsistent (remove tokens t) (cascade_members_of_token f t)
cascade_members_of_token-IsConsistent tokens f t c =
    subst (IsConsistent (remove tokens t)) (sym (cascade_members_of_token_lem f t)) (record {
      orgs = c.orgs;
      teams = c.teams;
      below = record {
        roles = c.below.roles;
        perms = c.below.perms;
        members = MembersOk-cascade tokens f t c.below.members;
      };
    })

-- The cascade from a token takes away exactly its memberships: every other one stays as it is.
pub cascade_members_of_token-memberships :
    (tokens : Map ℤ TokenEntry) (f : Rbac) (t x : ℤ)
    → IsConsistent tokens f
    → get (cascade_members_of_token f t).token_memberships x
      ≡ (if member_of_token t (get f.token_memberships x) then none else get f.token_memberships x)
cascade_members_of_token-memberships tokens f t x c =
    let ids = keys (inner f.token_memberships_by_token t) in
    rw cascade_members_of_token_lem (
      ground (
        arith,
        get-delete_token_members f ids x,
        elem-keys-inner f.token_memberships_by_token t x,
        c.below.members.token_indexed t x,
      ))
