-- ===== src/Manifest/State.antt =====
-- The manifest's part of ClusterFSM (internal/cluster/raft/fsm.go) and its three operations, in
-- the variants that take a decoded payload.
use iot_edge_db.Prelude.{
  ℕ, ◌+◌, ite, Option, none, some, List, [], ◌∷◌, if◌then◌else◌, is_some, GoString, str_dec,
  is_empty_string,
}
use iot_edge_db.GoMap.{Map, Index, get, put, remove, empty, add, drop, str_key}
use iot_edge_db.Types.{
  FileEntry, RegisterFilePayload, DeleteFilePayload, UpdateFilePayload, time_is_zero, Outcome, fail,
  succeed, PathError, bad_path, created_at_required, path_required, file_registered, file_deleted,
}
use iot_edge_db.Manifest.Path.{validate_manifest_path}

-- `files_by_db` holds sets of paths; `keys_cache` is `none` where the Go slice is nil.
pub record Manifest : Type 0 where
  pub files : Map GoString FileEntry
  pub files_by_db : Index GoString GoString Unit
  pub keys_cache : Option (List GoString)
  pub rejected_paths : ℕ

abbrev pub new_manifest : Manifest
new_manifest = record { files = empty; files_by_db = empty; keys_cache = none; rejected_paths = 0 }

abbrev pub inc_rejected_paths : Manifest → Manifest
inc_rejected_paths m = record m { rejected_paths = m.rejected_paths + 1 }

-- A file that was registered under another database leaves the old database's set.
unfoldable pub unlink_old :
    Option FileEntry → FileEntry → Index GoString GoString Unit → Index GoString GoString Unit
unlink_old none entry idx = idx
unlink_old (some old) entry idx =
    ite (str_dec old.database entry.database) idx (drop idx old.database old.path)

-- The critical section of applyRegisterFileStruct.
unfoldable pub store_registered : Manifest → FileEntry → Manifest
unfolding unlink_old
store_registered m entry = record m {
  files = put m.files entry.path entry;
  files_by_db =
      add (unlink_old (get m.files entry.path) entry m.files_by_db) entry.database entry.path tt;
  keys_cache = none;
}

-- The critical section of applyUpdateFileStruct, which indexes no file with an empty database.
unfoldable pub store_updated : Manifest → FileEntry → Manifest
unfolding unlink_old
store_updated m entry =
    let idx = unlink_old (get m.files entry.path) entry m.files_by_db in
    record m {
      files = put m.files entry.path entry;
      files_by_db =
          if is_empty_string entry.database then idx else add idx entry.database entry.path tt;
      keys_cache = none;
    }

-- What applyRegisterFileStruct and applyUpdateFileStruct do with the verdict on the path; `store`
-- is the critical section. The creation time is checked after the path, and the log index is
-- stamped on the entry.
unfoldable pub store_checked :
    Manifest → Option PathError → FileEntry → (FileEntry → Manifest) → ℕ → Outcome Manifest
store_checked m (some e) file store log_index = fail (inc_rejected_paths m) (bad_path e)
store_checked m none file store log_index =
    if time_is_zero file.created_at
    then fail m created_at_required
    else let entry : FileEntry = record file { lsn = log_index } in
      succeed (store entry) (file_registered entry ∷ [])

unfoldable pub apply_register_file_struct : Manifest → RegisterFilePayload → ℕ → Outcome Manifest
unfolding store_checked store_registered
apply_register_file_struct m p log_index =
    store_checked m (validate_manifest_path p.file.path) p.file (store_registered m) log_index

unfoldable pub apply_update_file_struct : Manifest → UpdateFilePayload → ℕ → Outcome Manifest
unfolding store_checked store_updated
apply_update_file_struct m p log_index =
    store_checked m (validate_manifest_path p.file.path) p.file (store_updated m) log_index

unfoldable pub unlink_deleted :
    Option FileEntry → GoString → Index GoString GoString Unit → Index GoString GoString Unit
unlink_deleted none path idx = idx
unlink_deleted (some existing) path idx = drop idx existing.database path

-- The critical section of applyDeleteFileStruct.
unfoldable pub forget_file : Manifest → GoString → Manifest
unfolding unlink_deleted
forget_file m path = record m {
  files = remove m.files path;
  files_by_db = unlink_deleted (get m.files path) path m.files_by_db;
  keys_cache = none;
}

unfoldable pub apply_delete_file_struct : Manifest → DeleteFilePayload → Outcome Manifest
unfolding forget_file
apply_delete_file_struct m p =
    if is_empty_string p.path
    then fail m path_required
    else succeed (forget_file m p.path)
        (if is_some (get m.files p.path) then file_deleted p.path p.reason ∷ [] else [])
