-- ===== src/Tests/Parts.antt =====
-- The theorems about the manifest and about the nodes, at concrete states.
use iot_edge_db.Prelude.{
  str_dec, arith, ◌≡◌, refl, ◌≢◌, ◌↔◌, ◌⊎◌, none, some, [], ◌∷◌, bytes, is_some, GoString, true,
}
use iot_edge_db.GoMap.{get, str_key, put, remove, empty, get-put, get-empty}
use iot_edge_db.Types.{
  NodeInfo, BatchFileOpsPayload, PromoteWriterPayload, in_op, path_required, file_registered,
}
use iot_edge_db.Manifest.Path.{validate_manifest_path}
use iot_edge_db.Manifest.Path.Safe.{IsSafe, validate_manifest_path-exact}
use iot_edge_db.Manifest.State.{new_manifest, apply_register_file_struct, apply_delete_file_struct}
use iot_edge_db.Manifest.Batch.{apply_batch_file_ops}
use iot_edge_db.Manifest.Atomic.{SameFiles, batch_atomic}
use iot_edge_db.Fsm.Batches.{run_alone, batch_is_sequence}
use iot_edge_db.Manifest.Consistent.{IsConsistent, new_manifest-IsConsistent}
use iot_edge_db.Manifest.Preserve.{batch-IsConsistent}
use iot_edge_db.Nodes.{
  NodeTable, new_node_table, primary, apply_add_node, apply_promote_writer, apply_demote_writer,
}
use iot_edge_db.Nodes.Writers.{
  IsSinglePrimary, restated, promote-IsSinglePrimary, demote-IsSinglePrimary,
}
use iot_edge_db.Nodes.Promotion.{promote-effect}
use iot_edge_db.Tests.Data.{standby_writer, file_codec, cpu_file}

validate_manifest_path-exact_example :
    (validate_manifest_path (bytes "db/../x") ≡ none) ↔ IsSafe (bytes "db/../x")
validate_manifest_path-exact_example = validate_manifest_path-exact (bytes "db/../x")

-- A register, then a delete with the payload as its path.
abbrev batch : GoString → BatchFileOpsPayload
batch path = record {
  ops = record { type = 7; payload = [] } ∷ record { type = 8; payload = path } ∷ [];
}

batch-IsConsistent_example :
    IsConsistent (apply_batch_file_ops file_codec new_manifest (some (batch (bytes "a"))) 4).state
batch-IsConsistent_example =
    batch-IsConsistent file_codec new_manifest (some (batch (bytes "a"))) 4
      new_manifest-IsConsistent

refused_batch :
    (apply_batch_file_ops file_codec new_manifest (some (batch [])) 4).error
    ≡ some (in_op 1 path_required)
unfolding apply_batch_file_ops validate_manifest_path
refused_batch = refl

batch_atomic_example :
    SameFiles new_manifest (apply_batch_file_ops file_codec new_manifest (some (batch [])) 4).state
    × ((apply_batch_file_ops file_codec new_manifest (some (batch [])) 4).events ≡ [])
batch_atomic_example = batch_atomic file_codec new_manifest (some (batch [])) 4 refused_batch

-- Both operations run: the file is registered, and the path "a" is not there.
run_batch :
    (apply_batch_file_ops file_codec new_manifest (some (batch (bytes "a"))) 4).events
    ≡ file_registered (record cpu_file { lsn = 4 }) ∷ []
unfolding apply_batch_file_ops validate_manifest_path get put remove str_dec
    apply_register_file_struct apply_delete_file_struct empty
run_batch = refl

batch_is_sequence_example :
    let r = apply_batch_file_ops file_codec new_manifest (some (batch (bytes "a"))) 4 in
    let s = run_alone file_codec new_manifest (batch (bytes "a")).ops 4 in
    ((s.error ≡ none) × (r ≡ s)) ⊎ ((is_some s.error ≡ true) × (is_some r.error ≡ true))
batch_is_sequence_example = batch_is_sequence file_codec new_manifest (batch (bytes "a")) 4

unfoldable two_writers : NodeTable
unfolding apply_add_node
two_writers =
    (apply_add_node
      (apply_add_node new_node_table (some (record { node = standby_writer (bytes "a") }))).state
      (some (record { node = standby_writer (bytes "b") }))).state

two_writers-IsSinglePrimary : IsSinglePrimary two_writers
unfolding two_writers
two_writers-IsSinglePrimary = record {
  recorded = λ j h. ground (
    arith,
    get-put (put empty (bytes "a") (standby_writer (bytes "a"))) (bytes "b")
        (standby_writer (bytes "b")) j,
    get-put empty (bytes "a") (standby_writer (bytes "a")) j,
    get-empty {V = NodeInfo} j,
  );
}

abbrev promote_a : PromoteWriterPayload
promote_a = record { node_id = bytes "a"; old_primary_id = [] }

promote-IsSinglePrimary_example :
    IsSinglePrimary (apply_promote_writer two_writers (some promote_a)).state
promote-IsSinglePrimary_example =
    promote-IsSinglePrimary two_writers-IsSinglePrimary (some promote_a)

demote-IsSinglePrimary_example :
    IsSinglePrimary
      (apply_demote_writer
        (apply_promote_writer two_writers (some promote_a)).state
        (some (record { node_id = bytes "a" }))).state
demote-IsSinglePrimary_example =
    demote-IsSinglePrimary (promote-IsSinglePrimary two_writers-IsSinglePrimary (some promote_a))
      (some (record { node_id = bytes "a" }))

promoted_a : (apply_promote_writer two_writers (some promote_a)).error ≡ none
unfolding two_writers apply_promote_writer get put str_dec
promoted_a = refl

promote-effect_example :
    let r = apply_promote_writer two_writers (some promote_a) in
    (r.state.primary_writer_id ≡ bytes "a")
    × (get r.state.nodes (bytes "a") ≡ restated primary (get two_writers.nodes (bytes "a")))
    × (is_some (get two_writers.nodes (bytes "a")) ≡ true)
    × ((j : GoString)
        → j ≢ bytes "a"
        → j ≢ two_writers.primary_writer_id
        → get r.state.nodes j ≡ get two_writers.nodes j)
promote-effect_example = promote-effect two_writers promote_a promoted_a
