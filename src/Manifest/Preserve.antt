-- ===== src/Manifest/Preserve.antt =====
-- The manifest operations, the batch included (internal/cluster/raft/fsm.go), and the invariant of the
-- manifest.
use iot_edge_db.Prelude.{
  ℕ, suc, ◌≡◌, refl, Bool-cases, inl, inr, Option, none, some, List, [], ◌∷◌, is_empty_string,
}
use iot_edge_db.Types.{
  FileEntry, RegisterFilePayload, DeleteFilePayload, UpdateFilePayload, BatchFileOpsPayload,
  PathError, Error, Event, Outcome, time_is_zero,
}
use iot_edge_db.Manifest.Path.{validate_manifest_path}
use iot_edge_db.Manifest.State.{
  Manifest, inc_rejected_paths, store_checked, store_registered, store_updated,
  apply_register_file_struct, apply_update_file_struct, apply_delete_file_struct,
}
use iot_edge_db.Manifest.Batch.{
  FileCodec, DecodedOp, register, update, delete, Prevalidated, accepted, refused, refused_path,
  prevalidate, apply_op, after_op, apply_ops, run_prevalidated, apply_batch_file_ops,
}
use iot_edge_db.Manifest.Consistent.{
  IsConsistent, store_registered-IsConsistent, store_updated-IsConsistent, forget_file-IsConsistent,
}

module _ {m : Manifest} (c : IsConsistent m) (log_index : ℕ) where
  inc_rejected_paths-IsConsistent : IsConsistent (inc_rejected_paths m)
  inc_rejected_paths-IsConsistent = record {
    valid = c.valid;
    keyed = c.keyed;
    sound = c.sound;
    complete = c.complete;
  }

  store_checked-IsConsistent :
      (o : Option PathError) (file : FileEntry) (store : FileEntry → Manifest)
      → validate_manifest_path file.path ≡ o
      → ((e : FileEntry) → validate_manifest_path e.path ≡ none → IsConsistent (store e))
      → IsConsistent (store_checked m o file store log_index).state
  unfolding store_checked
  store_checked-IsConsistent (some e) file store v keep = inc_rejected_paths-IsConsistent
  store_checked-IsConsistent none file store v keep =
      elim (Bool-cases (time_is_zero file.created_at)) [
        | inl h ↦ rw h c
        | inr h ↦ rw h (keep (record file { lsn = log_index }) v)
      ]

  pub register-IsConsistent :
      (p : RegisterFilePayload) → IsConsistent (apply_register_file_struct m p log_index).state
  unfolding apply_register_file_struct
  register-IsConsistent p =
      store_checked-IsConsistent _ p.file (store_registered m) refl
        (store_registered-IsConsistent c)

  pub update-IsConsistent :
      (p : UpdateFilePayload) → IsConsistent (apply_update_file_struct m p log_index).state
  unfolding apply_update_file_struct
  update-IsConsistent p =
      store_checked-IsConsistent _ p.file (store_updated m) refl (store_updated-IsConsistent c)

  pub delete-IsConsistent :
      (p : DeleteFilePayload) → IsConsistent (apply_delete_file_struct m p).state
  unfolding apply_delete_file_struct
  delete-IsConsistent p = elim (Bool-cases (is_empty_string p.path)) [
    | inl h ↦ rw h c
    | inr h ↦ rw h (forget_file-IsConsistent c p.path)
  ]

  apply_op-IsConsistent : (d : DecodedOp) → IsConsistent (apply_op m d log_index).state
  unfolding apply_op
  apply_op-IsConsistent (register p) = register-IsConsistent p
  apply_op-IsConsistent (update p) = update-IsConsistent p
  apply_op-IsConsistent (delete p) = delete-IsConsistent p

after_op-IsConsistent :
    {m : Manifest} (i : ℕ) (o : Option Error) (es : List Event) (rest : Outcome Manifest)
    → IsConsistent m
    → IsConsistent rest.state
    → IsConsistent (after_op i m o es rest).state
after_op-IsConsistent i none es rest c d = d
after_op-IsConsistent i (some e) es rest c d = c

apply_ops-IsConsistent :
    (m : Manifest) (i : ℕ) (ds : List DecodedOp) (log_index : ℕ)
    → IsConsistent m
    → IsConsistent (apply_ops m i ds log_index).state
unfolding apply_ops
apply_ops-IsConsistent m i [] log_index c = c
apply_ops-IsConsistent m i (d ∷ ds) log_index c =
    let r = apply_op m d log_index in
    let kept = apply_op-IsConsistent c log_index d in
    after_op-IsConsistent i r.error r.events (apply_ops r.state (suc i) ds log_index) kept
      (apply_ops-IsConsistent r.state (suc i) ds log_index kept)

run_prevalidated-IsConsistent :
    (m : Manifest) (v : Prevalidated) (log_index : ℕ)
    → IsConsistent m
    → IsConsistent (run_prevalidated m v log_index).state
run_prevalidated-IsConsistent m (accepted ds) n c = apply_ops-IsConsistent m 0 ds n c
run_prevalidated-IsConsistent m (refused e) n c = c
run_prevalidated-IsConsistent m (refused_path e) n c = inc_rejected_paths-IsConsistent c n

-- A batch keeps a consistent manifest consistent, whatever its operations are and whether it is accepted
-- or refused: every path stays valid and is its file's key, and the index by database stays exact but
-- for the files of the empty database, which may be missing from it.
pub batch-IsConsistent :
    (codec : FileCodec) (m : Manifest) (o : Option BatchFileOpsPayload) (log_index : ℕ)
    → IsConsistent m
    → IsConsistent (apply_batch_file_ops codec m o log_index).state
unfolding apply_batch_file_ops
batch-IsConsistent codec m none n c = c
batch-IsConsistent codec m (some p) n c =
    run_prevalidated-IsConsistent m (prevalidate codec 0 p.ops) n c
