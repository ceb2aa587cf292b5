-- ===== src/Reconciliation/Diff.antt =====
-- What the difference between the manifest and the storage is (internal/reconciliation/diff.go).
use iot_edge_db.Prelude.{
  ℕ, ◌≡◌, refl, ap, Bool, true, false, not, ◌&&◌, ◌||◌, Option, none, some, List, [], ◌∷◌, ◌++◌,
  map, arith, if◌then◌else◌, GoString, str_dec, elem, elem-sort_strings, is_some, ite, Bool-cases,
  inl, inr,
}
use iot_edge_db.GoMap.{Map, empty, get, put, keys, get-put, get-empty, elem-keys_lem, str_key}
use iot_edge_db.Reconciliation.{
  ObjectRecord, is_younger_than, mark_manifest, Scan, scan_object, scan_storage, cons_unseen,
  unseen_at, insert_candidate, sort_candidates, compute_diff,
}

abbrev pub paths : List ObjectRecord → List GoString
paths recs = map (λ (r : ObjectRecord). r.path) recs

-- An object of this path that is old enough.
unfoldable pub has_old : GoString → ℕ → ℕ → List ObjectRecord → Bool
unfolding elem
has_old p now grace [] = false
has_old p now grace (rec ∷ recs) =
    let rest = has_old p now grace recs in
    (ite (str_dec p rec.path) true false && not (is_younger_than rec.last_modified now grace))
    || rest

abbrev mark_of : Bool → Bool → Option Bool
mark_of false seen = none
mark_of true seen = some seen

mark_manifest-get :
    (ps : List GoString) (seen : Map GoString Bool) (p : GoString)
    → (get seen p ≡ mark_of (is_some (get seen p)) false)
    → get (mark_manifest ps seen) p ≡ mark_of (elem str_dec p ps || is_some (get seen p)) false
unfolding mark_manifest elem
mark_manifest-get [] seen p h = h
mark_manifest-get (q ∷ ps) seen p h =
    let next = mark_manifest-get ps (put seen q false) p in
    ground (arith, get-put seen q false p, next, h)

elem-paths_snoc :
    (p : GoString) (recs : List ObjectRecord) (rec : ObjectRecord)
    → elem str_dec p (paths (recs ++ rec ∷ []))
      ≡ (elem str_dec p (paths recs) || ite (str_dec p rec.path) true false)
unfolding elem
elem-paths_snoc p [] rec = ground arith
elem-paths_snoc p (x ∷ recs) rec = ground (arith, elem-paths_snoc p recs rec)

abbrev unmarked : Option Bool → Bool
unmarked none = false
unmarked (some seen) = not seen

module _ (now grace : ℕ) where
  scan_object-seen :
      (s : Scan) (rec : ObjectRecord) (p : GoString)
      → get (scan_object now grace (get s.manifest_seen rec.path) rec s).manifest_seen p ≡ (
          if is_some (get s.manifest_seen p) && ite (str_dec p rec.path) true false
          then some true
          else get s.manifest_seen p)
  scan_object-seen s rec p = elim (str_dec p rec.path) [
    | yes e ↦ ground (arith, get-put s.manifest_seen rec.path true p, ap (get s.manifest_seen) e)
    | no n ↦ ground (arith, get-put s.manifest_seen rec.path true p)
  ]

  scan_object-candidates :
      (s : Scan) (rec : ObjectRecord) (p : GoString) (o : Option Bool)
      → get s.manifest_seen rec.path ≡ o
      → elem str_dec p (paths (scan_object now grace o rec s).candidates) ≡ (
          elem str_dec p (paths s.candidates)
          || (not (is_some (get s.manifest_seen p))
              && ite (str_dec p rec.path) true false
              && not (is_younger_than rec.last_modified now grace)))
  scan_object-candidates s rec p (some b) e = elim (str_dec p rec.path) [
    | yes q ↦ ground (arith, e, ap (get s.manifest_seen) q)
    | no n ↦ ground arith
  ]
  scan_object-candidates s rec p none e =
      elim (Bool-cases (is_younger_than rec.last_modified now grace)) [
        | inl t ↦ rw t (ground arith)
        | inr t ↦ rw t (elim (str_dec p rec.path) [
          | yes q ↦
              ground (arith, e, ap (get s.manifest_seen) q, elem-paths_snoc p s.candidates rec)
          | no n ↦ ground (arith, elem-paths_snoc p s.candidates rec)
        ])
      ]

  scan_storage-seen :
      (recs : List ObjectRecord) (s : Scan) (p : GoString)
      → get (scan_storage now grace recs s).manifest_seen p ≡ (
          if is_some (get s.manifest_seen p) && elem str_dec p (paths recs)
          then some true
          else get s.manifest_seen p)
  unfolding scan_storage elem
  scan_storage-seen [] s p = ground arith
  scan_storage-seen (rec ∷ recs) s p =
      let s' = scan_object now grace (get s.manifest_seen rec.path) rec s in
      ground (arith, scan_storage-seen recs s' p, scan_object-seen s rec p)

  scan_storage-candidates :
      (recs : List ObjectRecord) (s : Scan) (p : GoString)
      → elem str_dec p (paths (scan_storage now grace recs s).candidates) ≡ (
          elem str_dec p (paths s.candidates)
          || (not (is_some (get s.manifest_seen p)) && has_old p now grace recs))
  unfolding scan_storage has_old
  scan_storage-candidates [] s p = ground arith
  scan_storage-candidates (rec ∷ recs) s p =
      let s' = scan_object now grace (get s.manifest_seen rec.path) rec s in
      ground (
        arith,
        scan_storage-candidates recs s' p,
        scan_object-seen s rec p,
        scan_object-candidates s rec p (get s.manifest_seen rec.path) refl,
      )

elem-cons_unseen :
    (p q : GoString) (seen : Map GoString Bool) (o : Option Bool) (rest : List GoString)
    → get seen q ≡ o
    → elem str_dec p (cons_unseen o q rest)
      ≡ (elem str_dec p rest || (ite (str_dec p q) true false && unmarked (get seen p)))
unfolding elem
elem-cons_unseen p q seen none rest e = elim (str_dec p q) [
  | yes h ↦ ground (arith, e, ap (get seen) h)
  | no n ↦ ground arith
]
elem-cons_unseen p q seen (some true) rest e = elim (str_dec p q) [
  | yes h ↦ ground (arith, e, ap (get seen) h)
  | no n ↦ ground arith
]
elem-cons_unseen p q seen (some false) rest e = elim (str_dec p q) [
  | yes h ↦ ground (arith, e, ap (get seen) h)
  | no n ↦ ground arith
]

elem-unseen_at :
    (p : GoString) (seen : Map GoString Bool) (ks : List GoString)
    → elem str_dec p (unseen_at seen ks) ≡ (elem str_dec p ks && unmarked (get seen p))
unfolding elem unseen_at
elem-unseen_at p seen [] = refl
elem-unseen_at p seen (q ∷ ks) = ground (
  arith,
  elem-cons_unseen p q seen (get seen q) (unseen_at seen ks) refl,
  elem-unseen_at p seen ks,
)

elem-insert_candidate :
    (p : GoString) (rec : ObjectRecord) (recs : List ObjectRecord)
    → elem str_dec p (paths (insert_candidate rec recs))
      ≡ ite (str_dec p rec.path) true (elem str_dec p (paths recs))
unfolding elem insert_candidate
elem-insert_candidate p rec [] = refl
elem-insert_candidate p rec (x ∷ recs) = ground (arith, elem-insert_candidate p rec recs)

elem-sort_candidates :
    (p : GoString) (recs : List ObjectRecord)
    → elem str_dec p (paths (sort_candidates recs)) ≡ elem str_dec p (paths recs)
unfolding elem sort_candidates
elem-sort_candidates p [] = refl
elem-sort_candidates p (rec ∷ recs) =
    ground (arith, elem-insert_candidate p rec (sort_candidates recs), elem-sort_candidates p recs)

elem-no_path : (p : GoString) → elem str_dec p (paths []) ≡ false
unfolding elem
elem-no_path p = refl

-- A path is an orphan of the manifest exactly when the manifest has it and the storage has no object of it; and
-- a path is that of an orphan of the storage exactly when the manifest does not have it and an object
-- of it has a modification time and is not younger than the grace window.
pub compute_diff-exact :
    (manifest : List GoString) (storage : List ObjectRecord) (now grace : ℕ) (p : GoString)
    → let d = compute_diff manifest storage now grace in
      (elem str_dec p d.orphan_manifest
        ≡ (elem str_dec p manifest && not (elem str_dec p (paths storage))))
      × (elem str_dec p (paths d.orphan_storage)
          ≡ (not (elem str_dec p manifest) && has_old p now grace storage))
unfolding compute_diff
compute_diff-exact manifest storage now grace p =
    let s : Scan = record {
      manifest_seen = mark_manifest manifest empty;
      candidates = [];
      skipped = 0;
    } in
    let r = scan_storage now grace storage s in
    let none_yet = get-empty {V = Bool} p in
    let marked = mark_manifest-get manifest empty p (ground (arith, none_yet)) in
    let seen = scan_storage-seen now grace storage s p in
    (
      ground (
        arith,
        elem-sort_strings p (unseen_at r.manifest_seen (keys r.manifest_seen)),
        elem-unseen_at p r.manifest_seen (keys r.manifest_seen),
        elem-keys_lem r.manifest_seen p,
        seen,
        marked,
        none_yet,
      ),
      ground (
        arith,
        elem-sort_candidates p r.candidates,
        scan_storage-candidates now grace storage s p,
        elem-no_path p,
        seen,
        marked,
        none_yet,
      ),
    )
