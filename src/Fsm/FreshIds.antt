-- ===== src/Fsm/FreshIds.antt =====
-- The ids that are not in use after the entries of a log with increasing indices (Apply in
-- internal/cluster/raft/fsm.go).
use iot_edge_db.Prelude.{ℕ, ℤ, int64, int64-pos, arith, ◌^◌, ◌<◌}
use iot_edge_db.GoMap.{get-empty, int_key}
use iot_edge_db.Types.{
  TokenEntry, OrganizationEntry, TeamEntry, RoleEntry, MeasurementPermissionEntry,
  TokenMembershipEntry,
}
use iot_edge_db.Fsm.Commands.{Codec}
use iot_edge_db.Fsm.State.{ClusterFsm, new_cluster_fsm, Log, apply}
use iot_edge_db.Fsm.Consistent.{IsFresh}
use iot_edge_db.Fsm.Ids.{apply-IsFresh}

-- No index above `base` is in use as an id.
abbrev pub IsFreshAbove : ℕ → ClusterFsm → Type 0
IsFreshAbove base f = (n : ℕ) → base < n → n < 2 ^ 63 → IsFresh f (int64 n)

pub apply-IsFreshAbove :
    (codec : Codec) (f : ClusterFsm) (log : Log) {base : ℕ}
    → base < log.index
    → log.index < 2 ^ 63
    → IsFreshAbove base f
    → IsFreshAbove log.index (apply codec f log).state
apply-IsFreshAbove codec f log {base} above small u n lt w =
    apply-IsFresh codec f log (int64 n) (λ e. ground (arith, int64-pos log.index, int64-pos n, e))
      (u n (omega arith) w)

pub new_cluster_fsm-IsFresh : (k : ℤ) → IsFresh new_cluster_fsm k
new_cluster_fsm-IsFresh k = record {
  token = get-empty {V = TokenEntry} k;
  rbac = record {
    organization = get-empty {V = OrganizationEntry} k;
    team = get-empty {V = TeamEntry} k;
    role = get-empty {V = RoleEntry} k;
    permission = get-empty {V = MeasurementPermissionEntry} k;
    membership = get-empty {V = TokenMembershipEntry} k;
  };
}
