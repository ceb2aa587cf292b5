-- ===== src/Tokens/Permissions.antt =====
-- validatePermissionString, splitCSV and trimASCIISpace (internal/cluster/raft/fsm.go).
use iot_edge_db.Prelude.{
  ℕ, Bool, ◌&&◌, ◌||◌, Option, none, some, List, [], ◌∷◌, ◌++◌, ◌==◌, if◌then◌else◌, GoString,
  bytes, str_dec, is_empty_string, elem,
}
use iot_edge_db.Types.{Error, invalid_permission}

abbrev is_blank : ℕ → Bool
is_blank c = c == b' ' || c == 0x09

-- `for lo < hi && blank(s[lo])`
unfoldable pub trim_left : GoString → GoString
trim_left [] = []
trim_left (c ∷ s) = let rest = trim_left s in if is_blank c then rest else c ∷ s

-- `for hi > lo && blank(s[hi-1])`
unfoldable pub trim_right : GoString → GoString
trim_right [] = []
trim_right (c ∷ s) =
    let rest = trim_right s in if is_blank c && is_empty_string rest then [] else c ∷ rest

unfoldable pub trim_ascii_space : GoString → GoString
unfolding trim_left trim_right
trim_ascii_space s = trim_right (trim_left s)

-- The loop of splitCSV; `field` is s[start:i].
unfoldable pub split_from : GoString → GoString → List GoString
unfolding trim_ascii_space
split_from field [] = trim_ascii_space field ∷ []
split_from field (c ∷ s) =
    let rest = split_from (if c == b',' then [] else field ++ c ∷ []) s in
    if c == b',' then trim_ascii_space field ∷ rest else rest

unfoldable pub split_csv : GoString → List GoString
unfolding split_from
split_csv s = if is_empty_string s then [] else split_from [] s

abbrev pub allowed : List GoString
allowed = bytes "read" ∷ bytes "write" ∷ bytes "delete" ∷ bytes "admin" ∷ []

unfoldable pub check_verbs : List GoString → Option Error
check_verbs [] = none
check_verbs (p ∷ ps) =
    let rest = check_verbs ps in if elem str_dec p allowed then rest else some invalid_permission

unfoldable pub validate_permission_string : GoString → Option Error
unfolding split_csv check_verbs
validate_permission_string perms =
    if is_empty_string perms then none else check_verbs (split_csv perms)
