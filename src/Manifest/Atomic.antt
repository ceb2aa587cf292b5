-- ===== src/Manifest/Atomic.antt =====
-- The outcome of applyBatchFileOps (internal/cluster/raft/fsm.go) as a whole.
use iot_edge_db.Prelude.{
  ℕ, suc, ◌≡◌, refl, ◌⊎◌, inl, inr, false, Bool-cases, ◌==◌, Option, none, some, List, [], ◌∷◌,
  arith, All, is_empty_string,
}
use iot_edge_db.Types.{
  FileEntry, RegisterFilePayload, UpdateFilePayload, DeleteFilePayload, BatchFileOp,
  BatchFileOpsPayload, PathError, Error, time_is_zero,
}
use iot_edge_db.Manifest.Path.{validate_manifest_path}
use iot_edge_db.Manifest.State.{
  Manifest, apply_register_file_struct, apply_update_file_struct, apply_delete_file_struct,
}
use iot_edge_db.Manifest.Batch.{
  command_register_file, command_delete_file, command_update_file, FileCodec, DecodedOp, register,
  update, delete, Checked, good, bad, bad_file_path, Prevalidated, accepted, refused, refused_path,
  check_file, check_register, check_update, check_delete, check_op, after_check, prevalidate,
  apply_op, apply_ops, run_prevalidated, apply_batch_file_ops,
}

abbrev IsGoodFile : FileEntry → Type 0
IsGoodFile file = (validate_manifest_path file.path ≡ none) × (time_is_zero file.created_at ≡ false)

-- What the first pass has checked of an operation.
abbrev pub IsGood : DecodedOp → Type 0
IsGood (register p) = IsGoodFile p.file
IsGood (update p) = IsGoodFile p.file
IsGood (delete p) = is_empty_string p.path ≡ false

abbrev pub IsChecked : Checked → Type 0
IsChecked (good d) = IsGood d
IsChecked _ = Unit

abbrev pub IsPrevalidated : Prevalidated → Type 0
IsPrevalidated (accepted ds) = All IsGood ds
IsPrevalidated _ = Unit

check_file-IsChecked :
    (o : Option PathError) (file : FileEntry) (d : DecodedOp)
    → validate_manifest_path file.path ≡ o
    → (IsGoodFile file → IsGood d)
    → IsChecked (check_file o file d)
check_file-IsChecked (some e) file d v g = tt
check_file-IsChecked none file d v g = elim (Bool-cases (time_is_zero file.created_at)) [
  | inl h ↦ rw h tt
  | inr h ↦ rw h (g (v, h))
]

check_register-IsChecked : (o : Option RegisterFilePayload) → IsChecked (check_register o)
check_register-IsChecked none = tt
check_register-IsChecked (some p) = check_file-IsChecked _ p.file (register p) refl (λ g. g)

check_update-IsChecked : (o : Option UpdateFilePayload) → IsChecked (check_update o)
check_update-IsChecked none = tt
check_update-IsChecked (some p) = check_file-IsChecked _ p.file (update p) refl (λ g. g)

check_delete-IsChecked : (o : Option DeleteFilePayload) → IsChecked (check_delete o)
check_delete-IsChecked none = tt
check_delete-IsChecked (some p) = elim (Bool-cases (is_empty_string p.path)) [
  | inl h ↦ rw h tt
  | inr h ↦ rw h h
]

pub check_op-IsChecked : (codec : FileCodec) (op : BatchFileOp) → IsChecked (check_op codec op)
unfolding check_op
check_op-IsChecked codec op = elim (Bool-cases (op.type == command_register_file)) [
  | inl r ↦ rw r (check_register-IsChecked (codec.register_file op.payload))
  | inr r ↦ rw r (elim (Bool-cases (op.type == command_update_file)) [
    | inl u ↦ rw u (check_update-IsChecked (codec.update_file op.payload))
    | inr u ↦ rw u (elim (Bool-cases (op.type == command_delete_file)) [
      | inl d ↦ rw d (check_delete-IsChecked (codec.delete_file op.payload))
      | inr d ↦ rw d tt
    ])
  ])
]

after_check-IsPrevalidated :
    (i : ℕ) (c : Checked) (v : Prevalidated)
    → IsChecked c
    → IsPrevalidated v
    → IsPrevalidated (after_check i c v)
after_check-IsPrevalidated i (good d) (accepted ds) h hs = (h, hs)
after_check-IsPrevalidated i (good d) (refused e) h hs = tt
after_check-IsPrevalidated i (good d) (refused_path e) h hs = tt
after_check-IsPrevalidated i (bad e) v h hs = tt
after_check-IsPrevalidated i (bad_file_path e) v h hs = tt

pub prevalidate-IsPrevalidated :
    (codec : FileCodec) (i : ℕ) (ops : List BatchFileOp) → IsPrevalidated (prevalidate codec i ops)
unfolding prevalidate
prevalidate-IsPrevalidated codec i [] = tt
prevalidate-IsPrevalidated codec i (op ∷ ops) =
    after_check-IsPrevalidated i (check_op codec op) (prevalidate codec (suc i) ops)
      (check_op-IsChecked codec op) (prevalidate-IsPrevalidated codec (suc i) ops)

pub apply_op-succeeds :
    (m : Manifest) (d : DecodedOp) (n : ℕ) → IsGood d → (apply_op m d n).error ≡ none
unfolding apply_op apply_register_file_struct apply_update_file_struct apply_delete_file_struct
apply_op-succeeds m (register p) n g = ground arith
apply_op-succeeds m (update p) n g = ground arith
apply_op-succeeds m (delete p) n g = ground arith

apply_ops-succeeds :
    (m : Manifest) (i : ℕ) (ds : List DecodedOp) (n : ℕ)
    → All IsGood ds
    → (apply_ops m i ds n).error ≡ none
unfolding apply_ops
apply_ops-succeeds m i [] n g = refl
apply_ops-succeeds m i (d ∷ ds) n (g, gs) =
    rw (apply_op-succeeds m d n g) (apply_ops-succeeds (apply_op m d n).state (suc i) ds n gs)

-- The manifest but for its counter, whose growth a refused path shows.
abbrev pub SameFiles : Manifest → Manifest → Type 0
SameFiles m n =
    (n.files ≡ m.files) × (n.files_by_db ≡ m.files_by_db) × (n.keys_cache ≡ m.keys_cache)

run_prevalidated-atomic :
    (m : Manifest) (v : Prevalidated) (n : ℕ)
    → IsPrevalidated v
    → let r = run_prevalidated m v n in (SameFiles m r.state × (r.events ≡ [])) ⊎ (r.error ≡ none)
run_prevalidated-atomic m (accepted ds) n g = inr (apply_ops-succeeds m 0 ds n g)
run_prevalidated-atomic m (refused e) n g = inl ((refl, refl, refl), refl)
run_prevalidated-atomic m (refused_path e) n g = inl ((refl, refl, refl), refl)

batch-cases :
    (codec : FileCodec) (m : Manifest) (o : Option BatchFileOpsPayload) (n : ℕ)
    → let r = apply_batch_file_ops codec m o n in
      (SameFiles m r.state × (r.events ≡ [])) ⊎ (r.error ≡ none)
unfolding apply_batch_file_ops
batch-cases codec m none n = inl ((refl, refl, refl), refl)
batch-cases codec m (some p) n =
    run_prevalidated-atomic m (prevalidate codec 0 p.ops) n
      (prevalidate-IsPrevalidated codec 0 p.ops)

-- A batch that returns an error has left the files, the index by database and the sorted-key cache
-- as they were, and has made no callback, whichever of its operations was refused.
pub batch_atomic :
    (codec : FileCodec) (m : Manifest) (o : Option BatchFileOpsPayload) (n : ℕ) {e : Error}
    → (apply_batch_file_ops codec m o n).error ≡ some e
    → SameFiles m (apply_batch_file_ops codec m o n).state
      × ((apply_batch_file_ops codec m o n).events ≡ [])
batch_atomic codec m o n h = elim (batch-cases codec m o n) [ inl same ↦ same | inr ok ↦ cc ]
