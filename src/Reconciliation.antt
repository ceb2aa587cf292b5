-- ===== src/Reconciliation.antt =====
-- The difference between the manifest and the storage (internal/reconciliation/diff.go). A time is in nanoseconds
-- from the zero time, which is 0, and the grace window is not negative. sort.Slice is an insertion sort.
pub mod Diff
use iot_edge_db.Prelude.{
  ℕ, ◌+◌, ◌==◌, Bool, true, false, Option, none, some, List, [], ◌∷◌, ◌++◌, ltb, if◌then◌else◌,
  GoString, str_ltb, sort_strings,
}
use iot_edge_db.GoMap.{Map, empty, get, put, keys, str_key}

-- The path and the modification time of an object; also an orphanStorageCandidate.
pub record ObjectRecord : Type 0 where
  pub path : GoString
  pub last_modified : ℕ

pub record DiffResult : Type 0 where
  pub orphan_manifest : List GoString
  pub orphan_storage : List ObjectRecord
  pub skipped_grace_count : ℕ

abbrev pub is_younger_than : ℕ → ℕ → ℕ → Bool
is_younger_than mtime now grace = if mtime == 0 then true else ltb now (mtime + grace)

-- The first loop: no path of the manifest is seen yet.
unfoldable pub mark_manifest : List GoString → Map GoString Bool → Map GoString Bool
mark_manifest [] seen = seen
mark_manifest (p ∷ ps) seen = mark_manifest ps (put seen p false)

-- The state of the loop over the storage.
pub record Scan : Type 0 where
  pub manifest_seen : Map GoString Bool
  pub candidates : List ObjectRecord
  pub skipped : ℕ

abbrev pub scan_object : ℕ → ℕ → Option Bool → ObjectRecord → Scan → Scan
scan_object now grace (some b) rec s = record s {
  manifest_seen = put s.manifest_seen rec.path true;
}
scan_object now grace none rec s =
    if is_younger_than rec.last_modified now grace
    then record s { skipped = s.skipped + 1 }
    else record s { candidates = s.candidates ++ rec ∷ [] }

unfoldable pub scan_storage : ℕ → ℕ → List ObjectRecord → Scan → Scan
scan_storage now grace [] s = s
scan_storage now grace (rec ∷ recs) s =
    scan_storage now grace recs (scan_object now grace (get s.manifest_seen rec.path) rec s)

-- The loop over the map: the paths that were not seen.
abbrev pub cons_unseen : Option Bool → GoString → List GoString → List GoString
cons_unseen none p rest = rest
cons_unseen (some true) p rest = rest
cons_unseen (some false) p rest = p ∷ rest

unfoldable pub unseen_at : Map GoString Bool → List GoString → List GoString
unseen_at seen [] = []
unseen_at seen (p ∷ ps) = cons_unseen (get seen p) p (unseen_at seen ps)

unfoldable pub insert_candidate : ObjectRecord → List ObjectRecord → List ObjectRecord
unfolding str_ltb
insert_candidate rec [] = rec ∷ []
insert_candidate rec (x ∷ xs) =
    let rest = insert_candidate rec xs in if str_ltb x.path rec.path then x ∷ rest else rec ∷ x ∷ xs

unfoldable pub sort_candidates : List ObjectRecord → List ObjectRecord
unfolding insert_candidate
sort_candidates [] = []
sort_candidates (rec ∷ recs) = insert_candidate rec (sort_candidates recs)

-- The paths of the manifest, the objects of the storage, the time and the grace window.
unfoldable pub compute_diff : List GoString → List ObjectRecord → ℕ → ℕ → DiffResult
unfolding mark_manifest scan_storage unseen_at sort_candidates sort_strings
compute_diff manifest storage now grace =
    let s =
      scan_storage now grace storage
        (record { manifest_seen = mark_manifest manifest empty; candidates = []; skipped = 0 }) in
    record {
      orphan_manifest = sort_strings (unseen_at s.manifest_seen (keys s.manifest_seen));
      orphan_storage = sort_candidates s.candidates;
      skipped_grace_count = s.skipped;
    }
