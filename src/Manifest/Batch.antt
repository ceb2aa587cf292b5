-- ===== src/Manifest/Batch.antt =====
-- applyBatchFileOps (internal/cluster/raft/fsm.go): a pass that decodes and checks every operation,
-- then a pass that applies them. The codec stands for json.Unmarshal of an operation's payload.
use iot_edge_db.Prelude.{
  ℕ, suc, Option, none, some, List, [], ◌∷◌, ◌++◌, ◌==◌, if◌then◌else◌, GoString, is_empty_string,
}
use iot_edge_db.Types.{
  RegisterFilePayload, DeleteFilePayload, UpdateFilePayload, BatchFileOp, BatchFileOpsPayload,
  time_is_zero, Error, PathError, FileEntry, Outcome, fail, succeed, Event, bad_path,
  created_at_required, path_required, unmarshal_failed, unsupported_type, in_op,
}
use iot_edge_db.Manifest.Path.{validate_manifest_path}
use iot_edge_db.Manifest.State.{
  Manifest, inc_rejected_paths, apply_register_file_struct, apply_update_file_struct,
  apply_delete_file_struct,
}

abbrev pub command_register_file : ℕ
command_register_file = 7

abbrev pub command_delete_file : ℕ
command_delete_file = 8

abbrev pub command_update_file : ℕ
command_update_file = 11

-- json.Unmarshal into each of the payloads that an operation of a batch can have.
pub record FileCodec : Type 0 where
  pub register_file : GoString → Option RegisterFilePayload
  pub delete_file : GoString → Option DeleteFilePayload
  pub update_file : GoString → Option UpdateFilePayload

-- A slot of `decoded`, with the type of its operation.
pub data DecodedOp : Type 0 where
  register : RegisterFilePayload → DecodedOp
  delete : DeleteFilePayload → DecodedOp
  update : UpdateFilePayload → DecodedOp

-- What the first pass finds of one operation. `bad_file_path` also counts a rejected path.
pub data Checked : Type 0 where
  good : DecodedOp → Checked
  bad : Error → Checked
  bad_file_path : Error → Checked

abbrev pub check_file : Option PathError → FileEntry → DecodedOp → Checked
check_file (some e) file d = bad_file_path (bad_path e)
check_file none file d = if time_is_zero file.created_at then bad created_at_required else good d

abbrev pub check_register : Option RegisterFilePayload → Checked
check_register none = bad unmarshal_failed
check_register (some p) = check_file (validate_manifest_path p.file.path) p.file (register p)

abbrev pub check_update : Option UpdateFilePayload → Checked
check_update none = bad unmarshal_failed
check_update (some p) = check_file (validate_manifest_path p.file.path) p.file (update p)

abbrev pub check_delete : Option DeleteFilePayload → Checked
check_delete none = bad unmarshal_failed
check_delete (some p) = if is_empty_string p.path then bad path_required else good (delete p)

-- The body of the first loop.
unfoldable pub check_op : FileCodec → BatchFileOp → Checked
check_op codec op =
    if op.type == command_register_file
    then check_register (codec.register_file op.payload)
    else if op.type == command_update_file
    then check_update (codec.update_file op.payload)
    else if op.type == command_delete_file
    then check_delete (codec.delete_file op.payload)
    else bad unsupported_type

-- The first loop: the operations, or the error of the first that is refused.
pub data Prevalidated : Type 0 where
  accepted : List DecodedOp → Prevalidated
  refused : Error → Prevalidated
  refused_path : Error → Prevalidated

abbrev pub cons_accepted : DecodedOp → Prevalidated → Prevalidated
cons_accepted d (accepted ds) = accepted (d ∷ ds)
cons_accepted d (refused e) = refused e
cons_accepted d (refused_path e) = refused_path e

abbrev pub after_check : ℕ → Checked → Prevalidated → Prevalidated
after_check i (good d) rest = cons_accepted d rest
after_check i (bad e) rest = refused (in_op i e)
after_check i (bad_file_path e) rest = refused_path (in_op i e)

unfoldable pub prevalidate : FileCodec → ℕ → List BatchFileOp → Prevalidated
unfolding check_op
prevalidate codec i [] = accepted []
prevalidate codec i (op ∷ ops) = after_check i (check_op codec op) (prevalidate codec (suc i) ops)

-- The switch of the second loop.
unfoldable pub apply_op : Manifest → DecodedOp → ℕ → Outcome Manifest
apply_op m (register p) log_index = apply_register_file_struct m p log_index
apply_op m (delete p) log_index = apply_delete_file_struct m p
apply_op m (update p) log_index = apply_update_file_struct m p log_index

-- After one operation: its error ends the batch, or the rest follows.
abbrev pub after_op : ℕ → Manifest → Option Error → List Event → Outcome Manifest → Outcome Manifest
after_op i m (some e) es rest = record { state = m; error = some (in_op i e); events = es }
after_op i m none es rest = record {
  state = rest.state;
  error = rest.error;
  events = es ++ rest.events;
}

-- The second loop, which stops at the first error. What is applied before it stays.
unfoldable pub apply_ops : Manifest → ℕ → List DecodedOp → ℕ → Outcome Manifest
unfolding apply_op
apply_ops m i [] log_index = succeed m []
apply_ops m i (d ∷ ds) log_index =
    let r = apply_op m d log_index in
    after_op i r.state r.error r.events (apply_ops r.state (suc i) ds log_index)

abbrev pub run_prevalidated : Manifest → Prevalidated → ℕ → Outcome Manifest
run_prevalidated m (refused e) log_index = fail m e
run_prevalidated m (refused_path e) log_index = fail (inc_rejected_paths m) e
run_prevalidated m (accepted ds) log_index = apply_ops m 0 ds log_index

unfoldable pub apply_batch_file_ops :
    FileCodec → Manifest → Option BatchFileOpsPayload → ℕ → Outcome Manifest
unfolding prevalidate apply_ops
apply_batch_file_ops codec m none log_index = fail m unmarshal_failed
apply_batch_file_ops codec m (some p) log_index =
    run_prevalidated m (prevalidate codec 0 p.ops) log_index
