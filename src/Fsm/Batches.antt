-- ===== src/Fsm/Batches.antt =====
-- A batch and its operations as commands of their own (applyBatchFileOps, applyRegisterFile, applyUpdateFile and
-- applyDeleteFile in internal/cluster/raft/fsm.go).
use iot_edge_db.Prelude.{
  ℕ, suc, ◌≡◌, refl, ap, ◌⊎◌, inl, inr, Bool-cases, true, ◌==◌, Option, none, some, is_some, List,
  [], ◌∷◌, ◌++◌, if◌then◌else◌, arith, is_empty_string,
}
use iot_edge_db.Types.{
  FileEntry, RegisterFilePayload, UpdateFilePayload, DeleteFilePayload, BatchFileOp,
  BatchFileOpsPayload, Error, PathError, Event, Outcome, fail, succeed, time_is_zero,
  unsupported_type,
}
use iot_edge_db.Manifest.Path.{validate_manifest_path}
use iot_edge_db.Manifest.State.{
  Manifest, store_checked, apply_register_file_struct, apply_update_file_struct,
  apply_delete_file_struct,
}
use iot_edge_db.Manifest.Batch.{
  command_register_file, command_delete_file, command_update_file, FileCodec, DecodedOp, register,
  update, Checked, good, bad, bad_file_path, Prevalidated, accepted, refused, refused_path,
  check_file, check_register, check_update, check_delete, check_op, after_check, prevalidate,
  apply_op, apply_ops, run_prevalidated, apply_batch_file_ops,
}
use iot_edge_db.Manifest.Atomic.{IsChecked, check_op-IsChecked, apply_op-succeeds}
use iot_edge_db.Fsm.State.{apply_register_file, apply_update_file, apply_delete_file}

-- An operation of a batch as a command of its own.
unfoldable pub apply_alone : FileCodec → Manifest → BatchFileOp → ℕ → Outcome Manifest
apply_alone codec m op n =
    if op.type == command_register_file
    then apply_register_file m (codec.register_file op.payload) n
    else if op.type == command_update_file
    then apply_update_file m (codec.update_file op.payload) n
    else if op.type == command_delete_file
    then apply_delete_file m (codec.delete_file op.payload)
    else fail m unsupported_type

abbrev pub then_rest : Manifest → Option Error → List Event → Outcome Manifest → Outcome Manifest
then_rest m (some e) es rest = record { state = m; error = some e; events = es }
then_rest m none es rest = record {
  state = rest.state;
  error = rest.error;
  events = es ++ rest.events;
}

-- The operations as commands of their own, in their order, up to the first that returns an error.
unfoldable pub run_alone : FileCodec → Manifest → List BatchFileOp → ℕ → Outcome Manifest
unfolding apply_alone
run_alone codec m [] n = succeed m []
run_alone codec m (op ∷ ops) n =
    let r = apply_alone codec m op n in
    then_rest r.state r.error r.events (run_alone codec r.state ops n)

-- What the first pass finds of an operation is what becomes of it alone, in any manifest.
abbrev Agrees : (DecodedOp → Outcome Manifest) → Outcome Manifest → Checked → Type 0
Agrees applied r (good d) = r ≡ applied d
Agrees applied r (bad e) = is_some r.error ≡ true
Agrees applied r (bad_file_path e) = is_some r.error ≡ true

module _ (m : Manifest) (n : ℕ) where
  abbrev applied : DecodedOp → Outcome Manifest
  applied d = apply_op m d n

  check_file-Agrees :
      (o : Option PathError) (file : FileEntry) (store : FileEntry → Manifest) (d : DecodedOp)
      → store_checked m o file store n ≡ applied d
      → Agrees applied (store_checked m o file store n) (check_file o file d)
  unfolding store_checked
  check_file-Agrees (some e) file store d h = refl
  check_file-Agrees none file store d h = elim (Bool-cases (time_is_zero file.created_at)) [
    | inl z ↦ ground (arith, z)
    | inr z ↦ rw z (ground (arith, z, h))
  ]

  check_register-Agrees :
      (o : Option RegisterFilePayload)
      → Agrees applied (apply_register_file m o n) (check_register o)
  unfolding apply_op apply_register_file_struct
  check_register-Agrees none = refl
  check_register-Agrees (some p) =
      check_file-Agrees (validate_manifest_path p.file.path) p.file _ (register p) refl

  check_update-Agrees :
      (o : Option UpdateFilePayload) → Agrees applied (apply_update_file m o n) (check_update o)
  unfolding apply_op apply_update_file_struct
  check_update-Agrees none = refl
  check_update-Agrees (some p) =
      check_file-Agrees (validate_manifest_path p.file.path) p.file _ (update p) refl

  check_delete-Agrees :
      (o : Option DeleteFilePayload) → Agrees applied (apply_delete_file m o) (check_delete o)
  unfolding apply_op apply_delete_file_struct
  check_delete-Agrees none = refl
  check_delete-Agrees (some p) = elim (Bool-cases (is_empty_string p.path)) [
    | inl h ↦ rw h refl
    | inr h ↦ rw h (ground (arith, h))
  ]

  check_op-Agrees :
      (codec : FileCodec) (op : BatchFileOp)
      → Agrees applied (apply_alone codec m op n) (check_op codec op)
  unfolding check_op apply_alone
  check_op-Agrees codec op = elim (Bool-cases (op.type == command_register_file)) [
    | inl r ↦ rw r (check_register-Agrees (codec.register_file op.payload))
    | inr r ↦ rw r (elim (Bool-cases (op.type == command_update_file)) [
      | inl u ↦ rw u (check_update-Agrees (codec.update_file op.payload))
      | inr u ↦ rw u (elim (Bool-cases (op.type == command_delete_file)) [
        | inl d ↦ rw d (check_delete-Agrees (codec.delete_file op.payload))
        | inr d ↦ rw d refl
      ])
    ])
  ]

module _ (codec : FileCodec) (n : ℕ) where
  -- The verdict of the first pass on the operations is what becomes of them one by one.
  abbrev Matches : Manifest → ℕ → List BatchFileOp → Prevalidated → Type 0
  Matches m i ops (accepted ds) =
      ((run_alone codec m ops n).error ≡ none) × (apply_ops m i ds n ≡ run_alone codec m ops n)
  Matches m i ops (refused e) = is_some (run_alone codec m ops n).error ≡ true
  Matches m i ops (refused_path e) = is_some (run_alone codec m ops n).error ≡ true

  -- The first operation is good.
  good-Matches :
      (m : Manifest) (i : ℕ) (op : BatchFileOp) (ops : List BatchFileOp) (d : DecodedOp)
      (v : Prevalidated)
      → apply_alone codec m op n ≡ apply_op m d n
      → (apply_op m d n).error ≡ none
      → Matches (apply_op m d n).state (suc i) ops v
      → Matches m i (op ∷ ops) (after_check i (good d) v)
  unfolding run_alone apply_ops
  good-Matches m i op ops d (accepted ds) e z (y, h) =
      let es = (apply_op m d n).events in rw e (rw z (y, ap (then_rest m none es) h))
  good-Matches m i op ops d (refused x) e z h = rw e (rw z h)
  good-Matches m i op ops d (refused_path x) e z h = rw e (rw z h)

  -- It returns an error.
  bad-fails :
      (m : Manifest) (op : BatchFileOp) (ops : List BatchFileOp) (o : Option Error)
      → (apply_alone codec m op n).error ≡ o
      → is_some o ≡ true
      → is_some (run_alone codec m (op ∷ ops) n).error ≡ true
  unfolding run_alone
  bad-fails m op ops none e h = ground arith
  bad-fails m op ops (some x) e h = rw e refl

  after_check-Matches :
      (m : Manifest) (i : ℕ) (op : BatchFileOp) (ops : List BatchFileOp) (c : Checked)
      (v : Prevalidated)
      → Agrees (λ d. apply_op m d n) (apply_alone codec m op n) c
      → IsChecked c
      → ((m' : Manifest) → Matches m' (suc i) ops v)
      → Matches m i (op ∷ ops) (after_check i c v)
  after_check-Matches m i op ops (good d) v e g rest =
      good-Matches m i op ops d v e (apply_op-succeeds m d n g) (rest (apply_op m d n).state)
  after_check-Matches m i op ops (bad x) v e g rest = bad-fails m op ops _ refl e
  after_check-Matches m i op ops (bad_file_path x) v e g rest = bad-fails m op ops _ refl e

  prevalidate-Matches :
      (m : Manifest) (i : ℕ) (ops : List BatchFileOp) → Matches m i ops (prevalidate codec i ops)
  unfolding prevalidate run_alone apply_ops
  prevalidate-Matches m i [] = (refl, refl)
  prevalidate-Matches m i (op ∷ ops) =
      after_check-Matches m i op ops (check_op codec op) (prevalidate codec (suc i) ops)
        (check_op-Agrees m n codec op) (check_op-IsChecked codec op)
        (λ m'. prevalidate-Matches m' (suc i) ops)

  run_prevalidated-sequence :
      (m : Manifest) (ops : List BatchFileOp) (v : Prevalidated)
      → Matches m 0 ops v
      → let r = run_prevalidated m v n in
        let s = run_alone codec m ops n in
        ((s.error ≡ none) × (r ≡ s)) ⊎ ((is_some s.error ≡ true) × (is_some r.error ≡ true))
  run_prevalidated-sequence m ops (accepted ds) h = inl h
  run_prevalidated-sequence m ops (refused e) h = inr (h, refl)
  run_prevalidated-sequence m ops (refused_path e) h = inr (h, refl)

-- Where the operations of a batch, run as commands of their own one after the other at the batch's log index,
-- all succeed, the batch returns no error and has the same outcome: the same manifest and the same
-- callbacks. Where one of them returns an error, the batch returns an error too.
pub batch_is_sequence :
    (codec : FileCodec) (m : Manifest) (p : BatchFileOpsPayload) (n : ℕ)
    → let r = apply_batch_file_ops codec m (some p) n in
      let s = run_alone codec m p.ops n in
      ((s.error ≡ none) × (r ≡ s)) ⊎ ((is_some s.error ≡ true) × (is_some r.error ≡ true))
unfolding apply_batch_file_ops
batch_is_sequence codec m p n =
    run_prevalidated-sequence codec n m p.ops (prevalidate codec 0 p.ops)
      (prevalidate-Matches codec n m 0 p.ops)
