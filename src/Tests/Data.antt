-- ===== src/Tests/Data.antt =====
-- A small codec, and a log that it decodes: the first byte of an entry is the number of its command, and
-- each kind of payload is one that is given here.
use iot_edge_db.Prelude.{ℕ, pos, true, Option, none, some, [], ◌∷◌, GoString, bytes}
use iot_edge_db.Types.{
  NodeInfo, FileEntry, TokenEntry, OrganizationEntry, TeamEntry, RoleEntry,
  MeasurementPermissionEntry, TokenMembershipEntry,
}
use iot_edge_db.Manifest.Batch.{FileCodec}
use iot_edge_db.Fsm.Commands.{Codec, Command}
use iot_edge_db.Fsm.State.{Log}

abbrev pub acme : OrganizationEntry
acme = record {
  id = pos 0;
  name = bytes "acme";
  description = [];
  created_at_unix_nano = pos 7;
  updated_at_unix_nano = pos 0;
  enabled = true;
  lsn = 0;
}

abbrev pub ops_team : TeamEntry
ops_team = record {
  id = pos 0;
  organization_id = pos 1;
  name = bytes "ops";
  description = [];
  created_at_unix_nano = pos 7;
  updated_at_unix_nano = pos 0;
  enabled = true;
  lsn = 0;
}

abbrev pub reader_role : RoleEntry
reader_role = record {
  id = pos 0;
  team_id = pos 2;
  database_pattern = bytes "*";
  permissions = bytes "read, write";
  created_at_unix_nano = pos 7;
  lsn = 0;
}

abbrev pub cpu_permission : MeasurementPermissionEntry
cpu_permission = record {
  id = pos 0;
  role_id = pos 3;
  measurement_pattern = bytes "cpu";
  permissions = bytes "read";
  created_at_unix_nano = pos 7;
  lsn = 0;
}

abbrev pub agent_token : TokenEntry
agent_token = record {
  id = pos 0;
  name = bytes "agent";
  description = [];
  permissions = bytes "read";
  token_hash = bytes "h";
  token_prefix = bytes "p";
  created_at_unix_nano = pos 7;
  expires_at_unix_nano = pos 0;
  enabled = true;
  lsn = 0;
}

abbrev pub agent_in_ops : TokenMembershipEntry
agent_in_ops = record {
  id = pos 0;
  token_id = pos 5;
  team_id = pos 2;
  created_at_unix_nano = pos 7;
  lsn = 0;
}

abbrev pub cpu_file : FileEntry
cpu_file = record {
  path = bytes "db/cpu/1.parquet";
  sha256 = [];
  size_bytes = pos 10;
  database = bytes "db";
  measurement = bytes "cpu";
  partition_time = pos 0;
  origin_node_id = bytes "n1";
  tier = bytes "hot";
  created_at = pos 9;
  lsn = 0;
}

abbrev pub standby_writer : GoString → NodeInfo
standby_writer id = record {
  id = id;
  name = id;
  role = bytes "writer";
  cluster_name = [];
  address = [];
  api_address = [];
  state = bytes "healthy";
  version = [];
  writer_state = bytes "standby";
  core_count = pos 4;
}

abbrev pub file_codec : FileCodec
file_codec = record {
  register_file = λ b. some (record { file = cpu_file });
  delete_file = λ b. some (record { path = b; reason = [] });
  update_file = λ b. none;
}

abbrev pub decode_command : GoString → Option Command
decode_command [] = none
decode_command (t ∷ b) = some (record { type = t; payload = b })

abbrev pub sample_codec : Codec
sample_codec = record {
  command = decode_command;
  files = file_codec;
  add_node = λ b. some (record { node = standby_writer b });
  remove_node = λ b. none;
  update_node = λ b. none;
  update_node_state = λ b. none;
  promote_writer = λ b. some (record { node_id = b; old_primary_id = [] });
  demote_writer = λ b. some (record { node_id = b });
  assign_compactor = λ b. none;
  batch_file_ops = λ b.
      some
        (record { ops = record { type = 7; payload = b } ∷ record { type = 8; payload = b } ∷ [] });
  create_token = λ b. some (record { token = agent_token });
  update_token = λ b. none;
  revoke_token = λ b. some (record { id = pos 5 });
  delete_token = λ b. some (record { id = pos 5 });
  rotate_token = λ b. none;
  create_organization = λ b. some (record { organization = acme });
  update_organization = λ b. none;
  delete_organization = λ b. some (record { id = pos 1 });
  create_team = λ b. some (record { team = ops_team });
  update_team = λ b. none;
  delete_team = λ b. some (record { id = pos 2 });
  create_role = λ b. some (record { role = reader_role });
  update_role = λ b. none;
  delete_role = λ b. some (record { id = pos 3 });
  create_measurement_permission = λ b. some (record { measurement_permission = cpu_permission });
  delete_measurement_permission = λ b. some (record { id = pos 4 });
  add_token_to_team = λ b. some (record { membership = agent_in_ops });
  remove_token_from_team = λ b. some (record { token_id = pos 5; team_id = pos 2 });
}

-- The entry at index `i` of the command `t`.
abbrev pub entry : ℕ → ℕ → Log
entry i t = record { data' = t ∷ []; index = i }
