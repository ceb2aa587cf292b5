-- ===== src/Manifest/Path.antt =====
-- ValidateManifestPath (internal/cluster/raft/path_validation.go), over the bytes of a path.
pub mod Segments
pub mod Safe
use iot_edge_db.Prelude.{
  ℕ, suc, Bool, true, false, not, ◌&&◌, ◌||◌, Option, none, some, List, [], ◌∷◌, ◌++◌, leb, ltb,
  ◌==◌, if◌then◌else◌, is_some, GoString, str_dec, is_empty_string, length, elem,
}
use iot_edge_db.Types.{
  PathError, path_empty, path_too_long, path_traversal, path_absolute, path_scheme, path_null_byte,
}

abbrev pub max_manifest_path_len : ℕ
max_manifest_path_len = 4096

-- The index of the first byte `b`: strings.Index(path, ":"). The rune 0 is the byte 0, so
-- strings.ContainsRune(path, 0) asks whether there is an index.
unfoldable pub index_byte : ℕ → GoString → Option ℕ
index_byte b [] = none
index_byte b (c ∷ s) =
    let rest = index_byte b s in
    if c == b then some 0 else elim rest [ none ↦ none | some i ↦ some (suc i) ]

abbrev pub is_separator : ℕ → Bool
is_separator c = c == b'/' || c == 0x5c

abbrev pub is_letter : ℕ → Bool
is_letter c = (leb b'A' c && leb c b'Z') || (leb b'a' c && leb c b'z')

abbrev pub is_drive : GoString → Bool
is_drive (c ∷ d ∷ e ∷ s) = d == b':' && is_letter c && is_separator e
is_drive _ = false

unfoldable pub is_absolute_path : GoString → Bool
is_absolute_path [] = false
is_absolute_path (c ∷ s) = is_separator c || is_drive (c ∷ s)

abbrev pub dots : GoString
dots = b'.' ∷ b'.' ∷ []

-- strings.Contains(path, "..")
unfoldable pub contains_dots : GoString → Bool
contains_dots [] = false
contains_dots (c ∷ []) = false
contains_dots (c ∷ d ∷ s) = (c == b'.' && d == b'.') || contains_dots (d ∷ s)

-- A field that ends: the empty one is left out.
abbrev pub flush : GoString → List GoString → List GoString
flush [] rest = rest
flush (c ∷ s) rest = (c ∷ s) ∷ rest

-- strings.FieldsFunc at the separators; `field` is what has been read of the current one.
unfoldable pub fields_from : GoString → GoString → List GoString
fields_from field [] = flush field []
fields_from field (c ∷ s) =
    let rest = fields_from (if is_separator c then [] else field ++ c ∷ []) s in
    if is_separator c then flush field rest else rest

unfoldable pub has_parent_traversal_segment : GoString → Bool
unfolding fields_from contains_dots
has_parent_traversal_segment path =
    if not (contains_dots path) then false else elem str_dec dots (fields_from [] path)

-- The test of a colon that is no drive letter's.
abbrev pub bad_colon : GoString → Option ℕ → Bool
bad_colon path none = false
bad_colon path (some idx) = not (idx == 1) || not (is_absolute_path path)

unfoldable pub validate_manifest_path : GoString → Option PathError
unfolding index_byte is_absolute_path has_parent_traversal_segment
validate_manifest_path path =
    if is_empty_string path
    then some path_empty
    else if ltb max_manifest_path_len (length path)
    then some path_too_long
    else if is_some (index_byte 0 path)
    then some path_null_byte
    else if bad_colon path (index_byte b':' path)
    then some path_scheme
    else if is_absolute_path path
    then some path_absolute
    else if has_parent_traversal_segment path
    then some path_traversal
    else none
