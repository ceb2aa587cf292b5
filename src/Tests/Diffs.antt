-- ===== src/Tests/Diffs.antt =====
-- The theorem about the difference between manifest and storage, at concrete lists.
use iot_edge_db.Prelude.{
  List, ◌≡◌, refl, true, false, [], ◌∷◌, bytes, GoString, elem, str_dec, sort_strings,
}
use iot_edge_db.GoMap.{empty, get, put, keys, str_key}
use iot_edge_db.Reconciliation.{ObjectRecord, compute_diff}
use iot_edge_db.Reconciliation.Diff.{paths, has_old, compute_diff-exact}

abbrev manifest : List GoString
manifest = bytes "a" ∷ bytes "b" ∷ []

-- An object of the manifest, an old orphan, a young one, and one without a time.
abbrev storage : List ObjectRecord
storage =
    record { path = bytes "b"; last_modified = 10 }
    ∷ record { path = bytes "z"; last_modified = 10 }
    ∷ record { path = bytes "y"; last_modified = 98 }
    ∷ record { path = bytes "x"; last_modified = 0 }
    ∷ []

difference :
    ((compute_diff manifest storage 100 5).orphan_manifest ≡ bytes "a" ∷ [])
    × (paths (compute_diff manifest storage 100 5).orphan_storage ≡ bytes "z" ∷ [])
    × ((compute_diff manifest storage 100 5).skipped_grace_count ≡ 2)
unfolding compute_diff get put empty keys str_dec sort_strings
difference = (refl, refl, refl)

compute_diff-exact_example :
    (elem str_dec (bytes "z") (compute_diff manifest storage 100 5).orphan_manifest ≡ false)
    × (elem str_dec (bytes "z") (paths (compute_diff manifest storage 100 5).orphan_storage) ≡ true)
unfolding elem has_old str_dec
compute_diff-exact_example = compute_diff-exact manifest storage 100 5 (bytes "z")
