-- ===== src/Types/Entries.antt =====
-- The records that the maps of the FSM hold (internal/cluster/raft/fsm.go, fsm_rbac.go).
use iot_edge_db.Prelude.{ℕ, Bool, GoString, ℤ, is_zero}

-- A `time.Time`, in nanoseconds from the zero time (January 1, year 1, UTC).
abbrev pub Time : Type 0
Time = ℤ

-- t.IsZero()
abbrev pub time_is_zero : Time → Bool
time_is_zero t = is_zero t

pub record NodeInfo : Type 0 where
  pub id : GoString
  pub name : GoString
  pub role : GoString
  pub cluster_name : GoString
  pub address : GoString
  pub api_address : GoString
  pub state : GoString
  pub version : GoString
  pub writer_state : GoString
  pub core_count : ℤ

pub record FileEntry : Type 0 where
  pub path : GoString
  pub sha256 : GoString
  pub size_bytes : ℤ
  pub database : GoString
  pub measurement : GoString
  pub partition_time : Time
  pub origin_node_id : GoString
  pub tier : GoString
  pub created_at : Time
  pub lsn : ℕ

pub record TokenEntry : Type 0 where
  pub id : ℤ
  pub name : GoString
  pub description : GoString
  pub permissions : GoString
  pub token_hash : GoString
  pub token_prefix : GoString
  pub created_at_unix_nano : ℤ
  pub expires_at_unix_nano : ℤ
  pub enabled : Bool
  pub lsn : ℕ

pub record OrganizationEntry : Type 0 where
  pub id : ℤ
  pub name : GoString
  pub description : GoString
  pub created_at_unix_nano : ℤ
  pub updated_at_unix_nano : ℤ
  pub enabled : Bool
  pub lsn : ℕ

pub record TeamEntry : Type 0 where
  pub id : ℤ
  pub organization_id : ℤ
  pub name : GoString
  pub description : GoString
  pub created_at_unix_nano : ℤ
  pub updated_at_unix_nano : ℤ
  pub enabled : Bool
  pub lsn : ℕ

pub record RoleEntry : Type 0 where
  pub id : ℤ
  pub team_id : ℤ
  pub database_pattern : GoString
  pub permissions : GoString
  pub created_at_unix_nano : ℤ
  pub lsn : ℕ

pub record MeasurementPermissionEntry : Type 0 where
  pub id : ℤ
  pub role_id : ℤ
  pub measurement_pattern : GoString
  pub permissions : GoString
  pub created_at_unix_nano : ℤ
  pub lsn : ℕ

pub record TokenMembershipEntry : Type 0 where
  pub id : ℤ
  pub token_id : ℤ
  pub team_id : ℤ
  pub created_at_unix_nano : ℤ
  pub lsn : ℕ
