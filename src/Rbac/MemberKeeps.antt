-- ===== src/Rbac/MemberKeeps.antt =====
-- The commands of the measurement permissions and of the token memberships
-- (internal/cluster/raft/fsm_rbac.go), and the invariant of the RBAC tables.
use iot_edge_db.Prelude.{
  ◌≡◌, refl, true, ◌||◌, Option, none, some, is_some, ℕ, ℤ, int64, is_zero, Bool-cases, inl, inr,
  arith,
}
use iot_edge_db.GoMap.{Map, get, at, int_key, str_key}
use iot_edge_db.Types.{
  TokenEntry, MeasurementPermissionEntry, TokenMembershipEntry, CreateMeasurementPermissionPayload,
  AddTokenToTeamPayload, RemoveTokenFromTeamPayload, IdPayload, Error,
}
use iot_edge_db.Rbac.State.{Rbac}
use iot_edge_db.Rbac.Members
use iot_edge_db.Rbac.Tables.{inc_rejected_rbac-IsConsistent, IsConsistent, is_member}
use iot_edge_db.Rbac.Rows.{PermsOk-add, PermsOk-drop}
use iot_edge_db.Rbac.MemberRows.{MembersOk-add, MembersOk-drop}

same_pair :
    (e : TokenMembershipEntry) (t m : ℤ)
    → is_member t m (some e) ≡ true
    → (t ≡ e.token_id) × (m ≡ e.team_id)
same_pair e t m h = (ground arith, ground arith)

module _ (tokens : Map ℤ TokenEntry) (f : Rbac) (c : IsConsistent tokens f) where
  created_permission-IsConsistent :
      (m : MeasurementPermissionEntry) (i : ℕ) (v : Option Error)
      → get f.measurement_permissions (int64 i) ≡ none
      → IsConsistent tokens (Members.create_validated f m i v).state
  created_permission-IsConsistent m i (some x) fresh = inc_rejected_rbac-IsConsistent c
  created_permission-IsConsistent m i none fresh =
      elim (Bool-cases (is_zero m.created_at_unix_nano)) [
        | inl h ↦ rw h (inc_rejected_rbac-IsConsistent c)
        | inr h ↦ elim (Bool-cases (is_some (get f.roles m.role_id))) [
          | inr k ↦ rw (h, k) (inc_rejected_rbac-IsConsistent c)
          | inl k ↦
              rw (h, k)
                (record {
                  orgs = c.orgs;
                  teams = c.teams;
                  below = record {
                    roles = c.below.roles;
                    perms =
                        PermsOk-add f.roles f.measurement_permissions f.measurement_perms_by_role
                          c.below.perms (Members.stamped_permission m i) fresh k;
                    members = c.below.members;
                  };
                })
        ]
      ]

  -- In a consistent state in which the log index is not yet a measurement permission's id, creating one
  -- leaves the RBAC indices exact and no orphan, whatever the command holds.
  pub create_permission-IsConsistent :
      (p : Option CreateMeasurementPermissionPayload) (i : ℕ)
      → get f.measurement_permissions (int64 i) ≡ none
      → IsConsistent tokens (Members.apply_create_measurement_permission f p i).state
  unfolding Members.apply_create_measurement_permission
  create_permission-IsConsistent none i fresh = c
  create_permission-IsConsistent (some p) i fresh =
      created_permission-IsConsistent p.measurement_permission i _ fresh

  delete_permission_found-IsConsistent :
      (id : ℤ) (o : Option MeasurementPermissionEntry)
      → get f.measurement_permissions id ≡ o
      → IsConsistent tokens (Members.delete_permission_found f id o).state
  delete_permission_found-IsConsistent id none h = c
  delete_permission_found-IsConsistent id (some e) h = record {
    orgs = c.orgs;
    teams = c.teams;
    below = record {
      roles = c.below.roles;
      perms =
          PermsOk-drop f.roles f.measurement_permissions f.measurement_perms_by_role c.below.perms
            id e h;
      members = c.below.members;
    };
  }

  -- In a consistent state, deleting a measurement permission leaves the RBAC indices exact and no orphan.
  pub delete_permission-IsConsistent :
      (p : Option IdPayload) (i : ℕ)
      → IsConsistent tokens (Members.apply_delete_measurement_permission f p i).state
  unfolding Members.apply_delete_measurement_permission
  delete_permission-IsConsistent none i = c
  delete_permission-IsConsistent (some p) i = elim (Bool-cases (is_zero p.id)) [
    | inl h ↦ rw h (inc_rejected_rbac-IsConsistent c)
    | inr h ↦ rw h (delete_permission_found-IsConsistent p.id _ refl)
  ]

  insert_membership-IsConsistent :
      (e : TokenMembershipEntry) (o : Option ℤ)
      → at f.token_memberships_by_pair e.token_id e.team_id ≡ o
      → get f.token_memberships e.id ≡ none
      → is_some (get tokens e.token_id) ≡ true
      → is_some (get f.teams e.team_id) ≡ true
      → IsConsistent tokens (Members.insert_membership f e o).state
  insert_membership-IsConsistent e (some x) h fresh up up' = inc_rejected_rbac-IsConsistent c
  insert_membership-IsConsistent e none h fresh up up' = record {
    orgs = c.orgs;
    teams = c.teams;
    below = record {
      roles = c.below.roles;
      perms = c.below.perms;
      members =
          MembersOk-add tokens f.teams f.token_memberships f.token_memberships_by_pair
            f.token_memberships_by_token f.token_memberships_by_team c.below.members e fresh h up
            up';
    };
  }

  added_membership-IsConsistent :
      (m : TokenMembershipEntry) (i : ℕ) (v : Option Error)
      → get f.token_memberships (int64 i) ≡ none
      → IsConsistent tokens (Members.add_validated tokens f m i v).state
  added_membership-IsConsistent m i (some x) fresh = inc_rejected_rbac-IsConsistent c
  added_membership-IsConsistent m i none fresh =
      elim (Bool-cases (is_zero m.created_at_unix_nano)) [
        | inl h ↦ rw h (inc_rejected_rbac-IsConsistent c)
        | inr h ↦ elim (Bool-cases (is_some (get tokens m.token_id))) [
          | inr k ↦ rw (h, k) (inc_rejected_rbac-IsConsistent c)
          | inl k ↦ elim (Bool-cases (is_some (get f.teams m.team_id))) [
            | inr l ↦ rw (h, k, l) (inc_rejected_rbac-IsConsistent c)
            | inl l ↦
                rw (h, k, l)
                  (insert_membership-IsConsistent (Members.stamped_membership m i) _ refl fresh k l)
          ]
        ]
      ]

  -- In a consistent state in which the log index is not yet a membership's id, adding a token to a team
  -- leaves the RBAC indices exact and no orphan, whatever the command holds.
  pub add_token_to_team-IsConsistent :
      (p : Option AddTokenToTeamPayload) (i : ℕ)
      → get f.token_memberships (int64 i) ≡ none
      → IsConsistent tokens (Members.apply_add_token_to_team tokens f p i).state
  unfolding Members.apply_add_token_to_team
  add_token_to_team-IsConsistent none i fresh = c
  add_token_to_team-IsConsistent (some p) i fresh =
      added_membership-IsConsistent p.membership i _ fresh

  member_of_pair :
      (t m id : ℤ) (o : Option TokenMembershipEntry)
      → get f.token_memberships id ≡ o
      → is_member t m o ≡ true
      → IsConsistent tokens (Members.remove_membership f t m id)
  member_of_pair t m id none h k = cc
  member_of_pair t m id (some e) h k =
      let (p, q) = same_pair e t m k in
      rw (p, q)
        (record {
          orgs = c.orgs;
          teams = c.teams;
          below = record {
            roles = c.below.roles;
            perms = c.below.perms;
            members =
                MembersOk-drop tokens f.teams f.token_memberships f.token_memberships_by_pair
                  f.token_memberships_by_token f.token_memberships_by_team c.below.members id e h;
          };
        })

  remove_membership_found-IsConsistent :
      (t m : ℤ) (o : Option ℤ)
      → at f.token_memberships_by_pair t m ≡ o
      → IsConsistent tokens (Members.remove_membership_found f t m o).state
  remove_membership_found-IsConsistent t m none h = c
  remove_membership_found-IsConsistent t m (some id) h =
      member_of_pair t m id _ refl (ground (arith, c.below.members.paired t m id))

  -- In a consistent state, removing a token from a team leaves the RBAC indices exact and no orphan.
  pub remove_token_from_team-IsConsistent :
      (p : Option RemoveTokenFromTeamPayload) (i : ℕ)
      → IsConsistent tokens (Members.apply_remove_token_from_team f p i).state
  unfolding Members.apply_remove_token_from_team
  remove_token_from_team-IsConsistent none i = c
  remove_token_from_team-IsConsistent (some p) i =
      elim (Bool-cases (is_zero p.token_id || is_zero p.team_id)) [
        | inl h ↦ rw h (inc_rejected_rbac-IsConsistent c)
        | inr h ↦ rw h (remove_membership_found-IsConsistent p.token_id p.team_id _ refl)
      ]
