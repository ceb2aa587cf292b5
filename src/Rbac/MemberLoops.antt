-- ===== src/Rbac/MemberLoops.antt =====
-- The loops that remove the memberships of a team (internal/cluster/raft/fsm_rbac.go) and of a
-- token (internal/cluster/raft/fsm.go): which rows go, and which indices stay exact.
use iot_edge_db.Prelude.{
  ◌≡◌, refl, ap, ◌∙◌, Option, none, some, List, [], ◌∷◌, arith, is_some, ℤ, int_dec, elem,
  if◌then◌else◌,
}
use iot_edge_db.GoMap.{Map, Index, get, at, remove, drop, get-remove, at-drop, int_key}
use iot_edge_db.Types.{TokenMembershipEntry}
use iot_edge_db.Tokens.Consistent.{points_to}
use iot_edge_db.Rbac.State.{Rbac}
use iot_edge_db.Rbac.Cascade.{
  without_team_member, delete_team_members, without_token_member, delete_token_members,
}
use iot_edge_db.Rbac.Tables.{is_member, member_of_token, member_of_team}

abbrev pub IsPaired : Map ℤ TokenMembershipEntry → Index ℤ ℤ ℤ → Type 0
IsPaired members by_pair =
    (t m id : ℤ) → points_to id (at by_pair t m) ≡ is_member t m (get members id)

abbrev pub IsTokenIndexed : Map ℤ TokenMembershipEntry → Index ℤ ℤ Unit → Type 0
IsTokenIndexed members by_token =
    (t id : ℤ) → is_some (at by_token t id) ≡ member_of_token t (get members id)

abbrev pub IsTeamIndexed : Map ℤ TokenMembershipEntry → Index ℤ ℤ Unit → Type 0
IsTeamIndexed members by_team =
    (m id : ℤ) → is_some (at by_team m id) ≡ member_of_team m (get members id)

module _ (members : Map ℤ TokenMembershipEntry) (i : ℤ) (mem : TokenMembershipEntry)
    (e : get members i ≡ some mem) where
  pub IsPaired-drop :
      (by_pair : Index ℤ ℤ ℤ)
      → IsPaired members by_pair
      → IsPaired (remove members i) (drop by_pair mem.token_id mem.team_id)
  IsPaired-drop by_pair c t m id = ground (
    arith,
    get-remove members i id,
    at-drop by_pair mem.token_id mem.team_id t m,
    c t m id,
    c t m i,
  )

  pub IsTokenIndexed-drop :
      (by_token : Index ℤ ℤ Unit)
      → IsTokenIndexed members by_token
      → IsTokenIndexed (remove members i) (drop by_token mem.token_id i)
  IsTokenIndexed-drop by_token c t id =
      ground (arith, get-remove members i id, at-drop by_token mem.token_id i t id, c t id)

  pub IsTeamIndexed-drop :
      (by_team : Index ℤ ℤ Unit)
      → IsTeamIndexed members by_team
      → IsTeamIndexed (remove members i) (drop by_team mem.team_id i)
  IsTeamIndexed-drop by_team c m id =
      ground (arith, get-remove members i id, at-drop by_team mem.team_id i m id, c m id)

-- The loop over the memberships of a team.
team_step :
    (f : Rbac) (i : ℤ) (o : Option TokenMembershipEntry)
    → get f.token_memberships i ≡ o
    → (x : ℤ)
    → get (without_team_member f i o).token_memberships x ≡ get (remove f.token_memberships i) x
team_step f i none e x = ground (arith, get-remove f.token_memberships i x)
team_step f i (some m) e x = refl

pub get-delete_team_members :
    (f : Rbac) (ids : List ℤ) (x : ℤ)
    → get (delete_team_members f ids).token_memberships x
      ≡ (if elem int_dec x ids then none else get f.token_memberships x)
unfolding delete_team_members elem
get-delete_team_members f [] x = refl
get-delete_team_members f (i ∷ ids) x = ground (
  arith,
  get-delete_team_members (without_team_member f i (get f.token_memberships i)) ids x,
  team_step f i (get f.token_memberships i) refl x,
  get-remove f.token_memberships i x,
)

team_step-IsPaired :
    (f : Rbac) (i : ℤ) (o : Option TokenMembershipEntry)
    → get f.token_memberships i ≡ o
    → IsPaired f.token_memberships f.token_memberships_by_pair
    → let g = without_team_member f i o in IsPaired g.token_memberships g.token_memberships_by_pair
team_step-IsPaired f i none e c = c
team_step-IsPaired f i (some m) e c = IsPaired-drop f.token_memberships i m e _ c

team_step-IsTokenIndexed :
    (f : Rbac) (i : ℤ) (o : Option TokenMembershipEntry)
    → get f.token_memberships i ≡ o
    → IsTokenIndexed f.token_memberships f.token_memberships_by_token
    → let g = without_team_member f i o in
      IsTokenIndexed g.token_memberships g.token_memberships_by_token
team_step-IsTokenIndexed f i none e c = c
team_step-IsTokenIndexed f i (some m) e c = IsTokenIndexed-drop f.token_memberships i m e _ c

pub delete_team_members-indexed :
    (f : Rbac) (ids : List ℤ)
    → IsPaired f.token_memberships f.token_memberships_by_pair
    → IsTokenIndexed f.token_memberships f.token_memberships_by_token
    → let g = delete_team_members f ids in
      IsPaired g.token_memberships g.token_memberships_by_pair
      × IsTokenIndexed g.token_memberships g.token_memberships_by_token
unfolding delete_team_members
delete_team_members-indexed f [] c d = (c, d)
delete_team_members-indexed f (i ∷ ids) c d =
    delete_team_members-indexed (without_team_member f i (get f.token_memberships i)) ids
      (team_step-IsPaired f i _ refl c) (team_step-IsTokenIndexed f i _ refl d)

-- A state that differs from `f` in three tables only.
abbrev pub with_team_tables :
    Rbac → Map ℤ TokenMembershipEntry → Index ℤ ℤ ℤ → Index ℤ ℤ Unit → Rbac
with_team_tables f members by_pair by_token = record f {
  token_memberships = members;
  token_memberships_by_pair = by_pair;
  token_memberships_by_token = by_token;
}

abbrev SameButTeamTables : Rbac → Rbac → Type 0
SameButTeamTables f g =
    g
    ≡ with_team_tables f g.token_memberships g.token_memberships_by_pair
        g.token_memberships_by_token

team_step_lem :
    (f : Rbac) (i : ℤ) (o : Option TokenMembershipEntry)
    → SameButTeamTables f (without_team_member f i o)
team_step_lem f i none = refl
team_step_lem f i (some m) = refl

-- The tables that the loop does not touch.
pub delete_team_members_lem :
    (f : Rbac) (ids : List ℤ) → SameButTeamTables f (delete_team_members f ids)
unfolding delete_team_members
delete_team_members_lem f [] = refl
delete_team_members_lem f (i ∷ ids) =
    let g = without_team_member f i (get f.token_memberships i) in
    let h = delete_team_members g ids in
    delete_team_members_lem g ids
    ∙ ap
        (λ (s : Rbac).
          with_team_tables s h.token_memberships h.token_memberships_by_pair
            h.token_memberships_by_token)
        (team_step_lem f i (get f.token_memberships i))

-- The loop over the memberships of a token, in the same way.
token_step :
    (f : Rbac) (i : ℤ) (o : Option TokenMembershipEntry)
    → get f.token_memberships i ≡ o
    → (x : ℤ)
    → get (without_token_member f i o).token_memberships x ≡ get (remove f.token_memberships i) x
token_step f i none e x = ground (arith, get-remove f.token_memberships i x)
token_step f i (some m) e x = refl

pub get-delete_token_members :
    (f : Rbac) (ids : List ℤ) (x : ℤ)
    → get (delete_token_members f ids).token_memberships x
      ≡ (if elem int_dec x ids then none else get f.token_memberships x)
unfolding delete_token_members elem
get-delete_token_members f [] x = refl
get-delete_token_members f (i ∷ ids) x = ground (
  arith,
  get-delete_token_members (without_token_member f i (get f.token_memberships i)) ids x,
  token_step f i (get f.token_memberships i) refl x,
  get-remove f.token_memberships i x,
)

token_step-indexed :
    (f : Rbac) (i : ℤ) (o : Option TokenMembershipEntry)
    → get f.token_memberships i ≡ o
    → IsPaired f.token_memberships f.token_memberships_by_pair
    → IsTeamIndexed f.token_memberships f.token_memberships_by_team
    → let g = without_token_member f i o in
      IsPaired g.token_memberships g.token_memberships_by_pair
      × IsTeamIndexed g.token_memberships g.token_memberships_by_team
token_step-indexed f i none e c d = (c, d)
token_step-indexed f i (some m) e c d =
    (IsPaired-drop f.token_memberships i m e _ c, IsTeamIndexed-drop f.token_memberships i m e _ d)

pub delete_token_members-indexed :
    (f : Rbac) (ids : List ℤ)
    → IsPaired f.token_memberships f.token_memberships_by_pair
    → IsTeamIndexed f.token_memberships f.token_memberships_by_team
    → let g = delete_token_members f ids in
      IsPaired g.token_memberships g.token_memberships_by_pair
      × IsTeamIndexed g.token_memberships g.token_memberships_by_team
unfolding delete_token_members
delete_token_members-indexed f [] c d = (c, d)
delete_token_members-indexed f (i ∷ ids) c d =
    let (c', d') = token_step-indexed f i _ refl c d in
    delete_token_members-indexed (without_token_member f i (get f.token_memberships i)) ids c' d'

abbrev pub with_token_tables :
    Rbac → Map ℤ TokenMembershipEntry → Index ℤ ℤ ℤ → Index ℤ ℤ Unit → Rbac
with_token_tables f members by_pair by_team = record f {
  token_memberships = members;
  token_memberships_by_pair = by_pair;
  token_memberships_by_team = by_team;
}

abbrev SameButTokenTables : Rbac → Rbac → Type 0
SameButTokenTables f g =
    g
    ≡ with_token_tables f g.token_memberships g.token_memberships_by_pair
        g.token_memberships_by_team

token_step_lem :
    (f : Rbac) (i : ℤ) (o : Option TokenMembershipEntry)
    → SameButTokenTables f (without_token_member f i o)
token_step_lem f i none = refl
token_step_lem f i (some m) = refl

pub delete_token_members_lem :
    (f : Rbac) (ids : List ℤ) → SameButTokenTables f (delete_token_members f ids)
unfolding delete_token_members
delete_token_members_lem f [] = refl
delete_token_members_lem f (i ∷ ids) =
    let g = without_token_member f i (get f.token_memberships i) in
    let h = delete_token_members g ids in
    delete_token_members_lem g ids
    ∙ ap
        (λ (s : Rbac).
          with_token_tables s h.token_memberships h.token_memberships_by_pair
            h.token_memberships_by_team)
        (token_step_lem f i (get f.token_memberships i))
