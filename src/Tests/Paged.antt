-- ===== src/Tests/Paged.antt =====
-- The theorem about the pages of the manifest, at a manifest of three files.
use mathlib.Core.Option
use iot_edge_db.Prelude.{
  ◌≡◌, refl, ◌∷◌, [], true, bytes, GoString, elem, str_dec, length, map, suc, is_some, some,
  ascending, distinct, sort_strings,
}
use iot_edge_db.GoMap.{get, put, keys, empty, str_key}
use iot_edge_db.Types.{FileEntry, RegisterFilePayload}
use iot_edge_db.Manifest.Path.{validate_manifest_path}
use iot_edge_db.Manifest.State.{Manifest, new_manifest, apply_register_file_struct}
use iot_edge_db.Manifest.Consistent.{IsConsistent, new_manifest-IsConsistent}
use iot_edge_db.Manifest.Preserve.{register-IsConsistent}
use iot_edge_db.Manifest.Readers.{files_at}
use iot_edge_db.Manifest.Pages.{walk, get_files_paginated}
use iot_edge_db.Manifest.Paging.{walk_complete}
use iot_edge_db.Tests.Data.{cpu_file}

abbrev with_path : GoString → RegisterFilePayload
with_path path = record { file = record cpu_file { path = path } }

abbrev register : Manifest → GoString → Manifest
register m path = (apply_register_file_struct m (with_path path) 3).state

three_files : Manifest
three_files = register (register (register new_manifest (bytes "b")) (bytes "c")) (bytes "a")

three_files-IsConsistent : IsConsistent three_files
unfolding three_files
three_files-IsConsistent =
    register-IsConsistent
      (register-IsConsistent
        (register-IsConsistent new_manifest-IsConsistent 3 (with_path (bytes "b"))) 3
        (with_path (bytes "c")))
      3 (with_path (bytes "a"))

-- Two pages of two.
walked :
    Option.map (map (λ (e : FileEntry). e.path)) (walk 2 three_files [] 2)
    ≡ some (bytes "a" ∷ bytes "b" ∷ bytes "c" ∷ [])
unfolding three_files walk get_files_paginated put get keys empty str_dec sort_strings
    validate_manifest_path apply_register_file_struct
walked = refl

walk_complete_example :
    let ks = sort_strings (keys three_files.files) in
    (walk (suc (length ks)) three_files [] 2 ≡ some (files_at three_files.files ks))
    × (ascending ks ≡ true)
    × ((p : GoString) → elem str_dec p ks ≡ is_some (get three_files.files p))
unfolding three_files put keys empty str_dec validate_manifest_path apply_register_file_struct
    distinct
walk_complete_example = walk_complete three_files 2 three_files-IsConsistent refl refl
