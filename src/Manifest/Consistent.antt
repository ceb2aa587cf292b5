-- ===== src/Manifest/Consistent.antt =====
-- The invariant of the manifest between two commands, and the critical sections of its three operations
-- (internal/cluster/raft/fsm.go).
use iot_edge_db.Prelude.{
  ◌≡◌, refl, ite, Bool, true, false, Option, none, some, arith, is_some, GoString, str_dec,
  is_empty_string,
}
use iot_edge_db.GoMap.{
  get, at, add, get-put, get-remove, get-empty, at-add, at-drop, at-empty, str_key,
}
use iot_edge_db.Types.{FileEntry}
use iot_edge_db.Manifest.Path.{validate_manifest_path}
use iot_edge_db.Manifest.State.{
  Manifest, new_manifest, unlink_deleted, unlink_old, store_registered, store_updated, forget_file,
}

abbrev pub in_database : GoString → Option FileEntry → Bool
in_database db none = false
in_database db (some e) = ite (str_dec e.database db) true false

-- A file with an empty database may be missing from the set of the empty database: an update does
-- not index it.
pub record IsConsistent (m : Manifest) : Type 0 where
  pub valid :
      (p : GoString) (e : FileEntry) → get m.files p ≡ some e → validate_manifest_path p ≡ none
  pub keyed : (p : GoString) (e : FileEntry) → get m.files p ≡ some e → e.path ≡ p
  pub sound :
      (db p : GoString)
      → is_some (at m.files_by_db db p) ≡ true
      → in_database db (get m.files p) ≡ true
  pub complete :
      (db p : GoString)
      → is_empty_string db ≡ false
      → in_database db (get m.files p) ≡ true
      → is_some (at m.files_by_db db p) ≡ true

module _ {m : Manifest} (c : IsConsistent m) (entry : FileEntry) where
  -- After the unlink, the path stands in no other database's set.
  at-unlink_old :
      (o : Option FileEntry) (db p : GoString)
      → get m.files entry.path ≡ o
      → is_some (at (unlink_old o entry m.files_by_db) db p)
        ≡ ite
            (str_dec entry.path p)
            (ite (str_dec entry.database db) (is_some (at m.files_by_db db p)) false)
            (is_some (at m.files_by_db db p))
  unfolding unlink_old
  at-unlink_old none db p e = ground (arith, c.sound db p)
  at-unlink_old (some old) db p e = ground (
    arith,
    c.sound db p,
    c.keyed entry.path old e,
    at-drop m.files_by_db old.database old.path db p,
  )

  -- What `m.files_by_db` holds once the path is indexed under its database again.
  at-relinked :
      (db p : GoString)
      → let idx = unlink_old (get m.files entry.path) entry m.files_by_db in
        is_some (at (add idx entry.database entry.path tt) db p)
        ≡ ite
            (str_dec entry.path p)
            (ite (str_dec entry.database db) true false)
            (is_some (at m.files_by_db db p))
  at-relinked db p =
      let idx = unlink_old (get m.files entry.path) entry m.files_by_db in
      ground (
        arith,
        at-unlink_old (get m.files entry.path) db p refl,
        at-add idx entry.database entry.path tt db p,
      )

  pub store_registered-IsConsistent :
      validate_manifest_path entry.path ≡ none → IsConsistent (store_registered m entry)
  unfolding store_registered
  store_registered-IsConsistent v = record {
    valid = λ p e h. ground (arith, get-put m.files entry.path entry p, c.valid p e);
    keyed = λ p e h. ground (arith, get-put m.files entry.path entry p, c.keyed p e);
    sound = λ db p h.
        ground (arith, at-relinked db p, get-put m.files entry.path entry p, c.sound db p);
    complete = λ db p n h.
        ground (arith, at-relinked db p, get-put m.files entry.path entry p, c.complete db p);
  }

  pub store_updated-IsConsistent :
      validate_manifest_path entry.path ≡ none → IsConsistent (store_updated m entry)
  unfolding store_updated
  store_updated-IsConsistent v = record {
    valid = λ p e h. ground (arith, get-put m.files entry.path entry p, c.valid p e);
    keyed = λ p e h. ground (arith, get-put m.files entry.path entry p, c.keyed p e);
    sound = λ db p h. ground (
      arith,
      at-relinked db p,
      at-unlink_old (get m.files entry.path) db p refl,
      get-put m.files entry.path entry p,
      c.sound db p,
    );
    complete = λ db p n h. ground (
      arith,
      at-relinked db p,
      at-unlink_old (get m.files entry.path) db p refl,
      get-put m.files entry.path entry p,
      c.complete db p,
    );
  }

module _ {m : Manifest} (c : IsConsistent m) (path : GoString) where
  at-unlink_deleted :
      (o : Option FileEntry) (db p : GoString)
      → get m.files path ≡ o
      → is_some (at (unlink_deleted o path m.files_by_db) db p)
        ≡ ite (str_dec path p) false (is_some (at m.files_by_db db p))
  unfolding unlink_deleted
  at-unlink_deleted none db p e = ground (arith, c.sound db p)
  at-unlink_deleted (some old) db p e =
      ground (arith, c.sound db p, at-drop m.files_by_db old.database path db p)

  pub forget_file-IsConsistent : IsConsistent (forget_file m path)
  unfolding forget_file
  forget_file-IsConsistent = record {
    valid = λ p e h. ground (arith, get-remove m.files path p, c.valid p e);
    keyed = λ p e h. ground (arith, get-remove m.files path p, c.keyed p e);
    sound = λ db p h. ground (
      arith,
      at-unlink_deleted (get m.files path) db p refl,
      get-remove m.files path p,
      c.sound db p,
    );
    complete = λ db p n h. ground (
      arith,
      at-unlink_deleted (get m.files path) db p refl,
      get-remove m.files path p,
      c.complete db p,
    );
  }

pub new_manifest-IsConsistent : IsConsistent new_manifest
new_manifest-IsConsistent = record {
  valid = λ p e h. ground (arith, get-empty {V = FileEntry} p);
  keyed = λ p e h. ground (arith, get-empty {V = FileEntry} p);
  sound = λ db p h. ground (arith, at-empty {V = Unit {0}} db p);
  complete = λ db p n h. ground (arith, get-empty {V = FileEntry} p);
}
