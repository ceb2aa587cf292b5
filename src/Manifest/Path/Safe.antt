-- ===== src/Manifest/Path/Safe.antt =====
-- What ValidateManifestPath (internal/cluster/raft/path_validation.go) accepts, said without its
-- tests.
use iot_edge_db.Prelude.{
  ℕ, ◌≤◌, ◌≡◌, refl, ◌∙◌, ◌≢◌, ◌↔◌, if◌then◌else◌, ltb, Bool, true, false, none, some, [], ◌∷◌,
  arith, GoString, elem, ℕ_discrete, length, is_some, is_empty_string,
}
use iot_edge_db.Types.{
  path_empty, path_too_long, path_traversal, path_absolute, path_scheme, path_null_byte,
}
use iot_edge_db.Manifest.Path.{
  index_byte, is_separator, is_absolute_path, has_parent_traversal_segment, validate_manifest_path,
  max_manifest_path_len, bad_colon, is_drive,
}
use iot_edge_db.Manifest.Path.Segments.{HasSegment, has_parent_of_segment, Segment-of_has_parent}

abbrev pub begins_with_separator : GoString → Bool
begins_with_separator [] = false
begins_with_separator (c ∷ s) = is_separator c

pub record IsSafe (path : GoString) : Type 0 where
  pub nonempty : path ≢ []
  pub short : length path ≤ 4096
  pub no_null_byte : elem ℕ_discrete 0 path ≡ false
  pub no_colon : elem ℕ_discrete b':' path ≡ false
  pub relative : begins_with_separator path ≡ false
  pub no_parent : (pre post : GoString) → ¬ HasSegment path pre post

elem_of_index_byte : (b : ℕ) (s : GoString) → elem ℕ_discrete b s ≡ is_some (index_byte b s)
unfolding elem index_byte
elem_of_index_byte b [] = refl
elem_of_index_byte b (c ∷ s) = ground (arith, elem_of_index_byte b s)

-- The only colon that passes the test of the colon is a drive letter's, which the next test refuses.
colon_free :
    (path : GoString)
    → bad_colon path (index_byte b':' path) ≡ false
    → is_absolute_path path ≡ false
    → is_some (index_byte b':' path) ≡ false
colon_free path h k = ground arith

relative_of : (path : GoString) → is_absolute_path path ≡ false → begins_with_separator path ≡ false
unfolding is_absolute_path
relative_of [] h = refl
relative_of (c ∷ s) h = ground arith

-- The outcomes of the six tests on a path that is accepted.
abbrev Passes : GoString → Type 0
Passes path =
    (is_empty_string path ≡ false)
    × (length path ≤ 4096)
    × (is_some (index_byte 0 path) ≡ false)
    × (bad_colon path (index_byte b':' path) ≡ false)
    × (is_absolute_path path ≡ false)
    × (has_parent_traversal_segment path ≡ false)

-- A chain of tests that returns nil has passed every one of them.
chain_iff :
    (a b c d e f : Bool)
    → ((if a
          then some path_empty
          else if b
          then some path_too_long
          else if c
          then some path_null_byte
          else if d
          then some path_scheme
          else if e
          then some path_absolute
          else if f
          then some path_traversal
          else none)
        ≡ none)
      ↔ ((a ≡ false) × (b ≡ false) × (c ≡ false) × (d ≡ false) × (e ≡ false) × (f ≡ false))
chain_iff a b c d e f = ground arith

validate_iff :
    (path : GoString)
    → (validate_manifest_path path ≡ none) ↔ (
        (is_empty_string path ≡ false)
        × (ltb max_manifest_path_len (length path) ≡ false)
        × (is_some (index_byte 0 path) ≡ false)
        × (bad_colon path (index_byte b':' path) ≡ false)
        × (is_absolute_path path ≡ false)
        × (has_parent_traversal_segment path ≡ false))
unfolding validate_manifest_path
validate_iff path = chain_iff _ _ _ _ _ _

Passes-of_accepted : (path : GoString) → validate_manifest_path path ≡ none → Passes path
Passes-of_accepted path h =
    let (e, l, z, k, a, d) = (validate_iff path).0 h in (e, ground arith, z, k, a, d)

accepted_of_Passes : (path : GoString) → Passes path → validate_manifest_path path ≡ none
accepted_of_Passes path (e, l, z, k, a, d) = (validate_iff path).1 (e, ground arith, z, k, a, d)

pub accepted-IsSafe : (path : GoString) → validate_manifest_path path ≡ none → IsSafe path
accepted-IsSafe path v =
    let (e, l, z, k, a, d) = Passes-of_accepted path v in
    record {
      nonempty = λ q. ground arith;
      short = l;
      no_null_byte = elem_of_index_byte 0 path ∙ z;
      no_colon = elem_of_index_byte b':' path ∙ colon_free path k a;
      relative = relative_of path a;
      no_parent = λ pre post s. cc (has_parent_of_segment path pre post s, d);
    }

drive_has_colon : (s : GoString) → is_drive s ≡ true → elem ℕ_discrete b':' s ≡ true
unfolding elem
drive_has_colon [] h = cc
drive_has_colon (c ∷ []) h = cc
drive_has_colon (c ∷ d ∷ []) h = cc
drive_has_colon (c ∷ d ∷ e ∷ s) h = ground arith

not_absolute : (path : GoString) → IsSafe path → is_absolute_path path ≡ false
unfolding is_absolute_path
not_absolute [] s = refl
not_absolute (c ∷ r) s = ground (arith, drive_has_colon (c ∷ r), s.no_colon, s.relative)

no_colon_index : (path : GoString) → IsSafe path → index_byte b':' path ≡ none
no_colon_index path s = ground (arith, elem_of_index_byte b':' path, s.no_colon)

no_parent_segment :
    (path : GoString) (b : Bool) → has_parent_traversal_segment path ≡ b → IsSafe path → b ≡ false
no_parent_segment path false e s = refl
no_parent_segment path true e s =
    let (pre, post, h) = Segment-of_has_parent path e in absurd (s.no_parent pre post h)

pub safe-accepted : (path : GoString) → IsSafe path → validate_manifest_path path ≡ none
safe-accepted path s = accepted_of_Passes path (
  nonempty_flag path s.nonempty,
  s.short,
  ground (arith, elem_of_index_byte 0 path, s.no_null_byte),
  rw (no_colon_index path s) refl,
  not_absolute path s,
  no_parent_segment path (has_parent_traversal_segment path) refl s,
)
  where
    nonempty_flag : (p : GoString) → p ≢ [] → is_empty_string p ≡ false
    nonempty_flag [] h = absurd (h refl)
    nonempty_flag (c ∷ r) h = refl

-- ValidateManifestPath accepts exactly the paths that are not empty, have at most 4096 bytes, no
-- NUL and no colon, do not begin with a separator, and have no segment `..` between separators of
-- either kind, the start and the end of the path.
pub validate_manifest_path-exact :
    (path : GoString) → (validate_manifest_path path ≡ none) ↔ IsSafe path
validate_manifest_path-exact path = (accepted-IsSafe path, safe-accepted path)
