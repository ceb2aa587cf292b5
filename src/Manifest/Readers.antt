-- ===== src/Manifest/Readers.antt =====
-- GetFile and GetFilesByDatabase (internal/cluster/raft/fsm.go).
use iot_edge_db.Prelude.{Bool, Option, none, some, List, [], ◌∷◌, map, elem, GoString, str_dec}
use iot_edge_db.GoMap.{Map, get, keys, inner, str_key}
use iot_edge_db.Types.{FileEntry}
use iot_edge_db.Manifest.State.{Manifest}

unfoldable pub get_file : Manifest → GoString → Option FileEntry
get_file m path = get m.files path

-- The body of the loop: a path that the manifest does not have is skipped.
abbrev pub append_found : Option FileEntry → List FileEntry → List FileEntry
append_found none rest = rest
append_found (some entry) rest = entry ∷ rest

unfoldable pub files_at : Map GoString FileEntry → List GoString → List FileEntry
files_at files [] = []
files_at files (path ∷ paths) = append_found (get files path) (files_at files paths)

-- A database without an inner map has no paths.
unfoldable pub get_files_by_database : Manifest → GoString → List FileEntry
unfolding files_at
get_files_by_database m database = files_at m.files (keys (inner m.files_by_db database))

-- The paths of these files.
abbrev pub has_path : GoString → List FileEntry → Bool
has_path p files = elem str_dec p (map (λ (e : FileEntry). e.path) files)
