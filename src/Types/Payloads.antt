-- ===== src/Types/Payloads.antt =====
-- The payloads of the commands, as they are decoded. The payloads of revoke, and of each delete by id,
-- are one record, since their structs have the same one field.
use iot_edge_db.Prelude.{ℕ, Bool, GoString, ℤ, List}
use iot_edge_db.Types.Entries.{
  NodeInfo, FileEntry, TokenEntry, OrganizationEntry, TeamEntry, RoleEntry,
  MeasurementPermissionEntry, TokenMembershipEntry,
}

pub record AddNodePayload : Type 0 where
  pub node : NodeInfo

pub record RemoveNodePayload : Type 0 where
  pub node_id : GoString

pub record UpdateNodePayload : Type 0 where
  pub node : NodeInfo

pub record UpdateNodeStatePayload : Type 0 where
  pub node_id : GoString
  pub new_state : GoString

pub record PromoteWriterPayload : Type 0 where
  pub node_id : GoString
  pub old_primary_id : GoString

pub record DemoteWriterPayload : Type 0 where
  pub node_id : GoString

pub record RegisterFilePayload : Type 0 where
  pub file : FileEntry

pub record DeleteFilePayload : Type 0 where
  pub path : GoString
  pub reason : GoString

pub record UpdateFilePayload : Type 0 where
  pub file : FileEntry

pub record AssignCompactorPayload : Type 0 where
  pub node_id : GoString
  pub old_compactor_id : GoString

pub record BatchFileOp : Type 0 where
  pub type : ℕ
  pub payload : GoString

pub record BatchFileOpsPayload : Type 0 where
  pub ops : List BatchFileOp

pub record CreateTokenPayload : Type 0 where
  pub token : TokenEntry

pub record UpdateTokenPayload : Type 0 where
  pub id : ℤ
  pub name : GoString
  pub description : GoString
  pub permissions : GoString
  pub expires_at_unix_nano : ℤ
  pub changed_fields : List GoString

pub record IdPayload : Type 0 where
  pub id : ℤ

pub record RotateTokenPayload : Type 0 where
  pub id : ℤ
  pub new_hash : GoString
  pub new_prefix : GoString

pub record CreateOrganizationPayload : Type 0 where
  pub organization : OrganizationEntry

-- UpdateOrganizationPayload and UpdateTeamPayload have the same fields.
pub record UpdateNamedPayload : Type 0 where
  pub id : ℤ
  pub name : GoString
  pub description : GoString
  pub enabled : Bool
  pub updated_at_unix_nano : ℤ
  pub changed_fields : List GoString

pub record CreateTeamPayload : Type 0 where
  pub team : TeamEntry

pub record CreateRolePayload : Type 0 where
  pub role : RoleEntry

pub record UpdateRolePayload : Type 0 where
  pub id : ℤ
  pub database_pattern : GoString
  pub permissions : GoString
  pub changed_fields : List GoString

pub record CreateMeasurementPermissionPayload : Type 0 where
  pub measurement_permission : MeasurementPermissionEntry

pub record AddTokenToTeamPayload : Type 0 where
  pub membership : TokenMembershipEntry

pub record RemoveTokenFromTeamPayload : Type 0 where
  pub token_id : ℤ
  pub team_id : ℤ
