-- ===== src/Fsm/Commands.antt =====
-- The commands of the replicated log (CommandType, Command in internal/cluster/raft/fsm.go) and the
-- decoders of their payloads. Decoding is encoding/json's, so that it is a parameter: `none` is an
-- error of json.Unmarshal.
use iot_edge_db.Prelude.{ℕ, ◌-◌, Option, none, some, List, [], ◌∷◌, ◌==◌, if◌then◌else◌, GoString}
use iot_edge_db.Types.{
  AddNodePayload, AddTokenToTeamPayload, AssignCompactorPayload, BatchFileOpsPayload,
  CreateMeasurementPermissionPayload, CreateOrganizationPayload, CreateRolePayload,
  CreateTeamPayload, CreateTokenPayload, DemoteWriterPayload, IdPayload, PromoteWriterPayload,
  RemoveNodePayload, RemoveTokenFromTeamPayload, RotateTokenPayload, UpdateNamedPayload,
  UpdateNodePayload, UpdateNodeStatePayload, UpdateRolePayload, UpdateTokenPayload,
}
use iot_edge_db.Manifest.Batch.{FileCodec}

pub data CommandType : Type 0 where
  command_add_node command_remove_node command_update_node command_update_node_state
        command_promote_writer command_demote_writer command_register_file command_delete_file
        command_assign_compactor command_batch_file_ops command_update_file command_create_token
        command_update_token command_revoke_token command_delete_token command_rotate_token
        command_create_organization command_update_organization command_delete_organization
        command_create_team command_update_team command_delete_team command_create_role
        command_update_role command_delete_role command_create_measurement_permission
        command_delete_measurement_permission command_add_token_to_team
        command_remove_token_from_team :
      CommandType

-- In the order of the constants, which count from 1.
abbrev pub command_types : List CommandType
command_types =
    command_add_node ∷ command_remove_node ∷ command_update_node ∷ command_update_node_state
    ∷ command_promote_writer ∷ command_demote_writer ∷ command_register_file ∷ command_delete_file
    ∷ command_assign_compactor ∷ command_batch_file_ops ∷ command_update_file ∷ command_create_token
    ∷ command_update_token ∷ command_revoke_token ∷ command_delete_token ∷ command_rotate_token
    ∷ command_create_organization ∷ command_update_organization ∷ command_delete_organization
    ∷ command_create_team ∷ command_update_team ∷ command_delete_team ∷ command_create_role
    ∷ command_update_role ∷ command_delete_role ∷ command_create_measurement_permission
    ∷ command_delete_measurement_permission ∷ command_add_token_to_team
    ∷ command_remove_token_from_team ∷ []

unfoldable pub command_type_from : List CommandType → ℕ → Option CommandType
command_type_from [] n = none
command_type_from (c ∷ cs) n =
    let rest = command_type_from cs (n - 1) in if n == 1 then some c else rest

-- The command of a number, or `none` for the default case of the switch.
abbrev pub command_type : ℕ → Option CommandType
command_type n = command_type_from command_types n

pub record Command : Type 0 where
  pub type : ℕ
  pub payload : GoString

pub record Codec : Type 0 where
  pub command : GoString → Option Command
  pub files : FileCodec
  pub add_node : GoString → Option AddNodePayload
  pub remove_node : GoString → Option RemoveNodePayload
  pub update_node : GoString → Option UpdateNodePayload
  pub update_node_state : GoString → Option UpdateNodeStatePayload
  pub promote_writer : GoString → Option PromoteWriterPayload
  pub demote_writer : GoString → Option DemoteWriterPayload
  pub assign_compactor : GoString → Option AssignCompactorPayload
  pub batch_file_ops : GoString → Option BatchFileOpsPayload
  pub create_token : GoString → Option CreateTokenPayload
  pub update_token : GoString → Option UpdateTokenPayload
  pub revoke_token : GoString → Option IdPayload
  pub delete_token : GoString → Option IdPayload
  pub rotate_token : GoString → Option RotateTokenPayload
  pub create_organization : GoString → Option CreateOrganizationPayload
  pub update_organization : GoString → Option UpdateNamedPayload
  pub delete_organization : GoString → Option IdPayload
  pub create_team : GoString → Option CreateTeamPayload
  pub update_team : GoString → Option UpdateNamedPayload
  pub delete_team : GoString → Option IdPayload
  pub create_role : GoString → Option CreateRolePayload
  pub update_role : GoString → Option UpdateRolePayload
  pub delete_role : GoString → Option IdPayload
  pub create_measurement_permission : GoString → Option CreateMeasurementPermissionPayload
  pub delete_measurement_permission : GoString → Option IdPayload
  pub add_token_to_team : GoString → Option AddTokenToTeamPayload
  pub remove_token_from_team : GoString → Option RemoveTokenFromTeamPayload
