-- ===== src/Types/Effects.antt =====
-- What an apply function does besides changing the state: the error that it returns, and the
-- callbacks that it makes after the state is changed.
use iot_edge_db.Prelude.{ℕ, GoString, ℤ, List, [], Option, none, some}
use iot_edge_db.Types.Entries.{
  NodeInfo, FileEntry, TokenEntry, OrganizationEntry, TeamEntry, RoleEntry,
  MeasurementPermissionEntry, TokenMembershipEntry,
}

-- The sentinel errors of ValidateManifestPath.
pub data PathError : Type 0 where
  path_empty path_too_long path_traversal path_absolute path_scheme path_null_byte : PathError

-- `in_op i e` is the wrapper "batch file ops: op[i]: e".
pub data Error : Type 0 where
  unmarshal_failed unknown_command node_id_required wrong_role node_not_found : Error
  created_at_required path_required unsupported_type : Error
  id_required name_required name_too_long name_exists description_too_long : Error
  hash_required hash_too_long prefix_required prefix_too_long invalid_permission : Error
  organization_required team_required role_required token_required : Error
  pattern_required pattern_too_long : Error
  organization_not_found team_not_found role_not_found token_not_found already_member : Error
  bad_path : PathError → Error
  in_op : ℕ → Error → Error

-- The callbacks, with what they are given.
pub data Event : Type 0 where
  node_added node_updated : NodeInfo → Event
  node_removed : GoString → Event
  writer_promoted compactor_assigned : GoString → GoString → Event
  file_registered : FileEntry → Event
  file_deleted : GoString → GoString → Event
  token_created token_updated : TokenEntry → Event
  token_revoked token_deleted : ℤ → Event
  token_rotated : ℤ → GoString → GoString → ℕ → Event
  organization_created organization_updated : OrganizationEntry → Event
  team_created team_updated : TeamEntry → Event
  role_created role_updated : RoleEntry → Event
  measurement_permission_created : MeasurementPermissionEntry → Event
  membership_added : TokenMembershipEntry → Event
  organization_deleted team_deleted role_deleted measurement_permission_deleted : ℤ → Event
  membership_removed : ℤ → ℤ → Event

-- The state after the call, the error that it returns (`none` is nil) and its callbacks.
pub record Outcome {ℓ} (S : Type ℓ) : Type ℓ where
  pub state : S
  pub error : Option Error
  pub events : List Event

module _ {ℓ} {S : Type ℓ} where
  abbrev pub fail : S → Error → Outcome S
  fail s e = record { state = s; error = some e; events = [] }

  abbrev pub succeed : S → List Event → Outcome S
  succeed s es = record { state = s; error = none; events = es }

-- Runs on a part of the state.
abbrev pub lift {ℓ} : {S T : Type ℓ} → (S → T) → Outcome S → Outcome T
lift put r = record { state = put r.state; error = r.error; events = r.events }

-- A function that validates returns nil or an error.
infixl 5 ◌>>◌
abbrev pub ◌>>◌ {ℓ} : {E : Type ℓ} → Option E → Option E → Option E
none >> k = k
some e >> k = some e
