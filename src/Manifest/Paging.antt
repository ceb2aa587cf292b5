-- ===== src/Manifest/Paging.antt =====
-- The pages of GetFilesPaginated, one after the other (internal/cluster/raft/fsm.go).
use iot_edge_db.Prelude.{
  ℕ, zero, suc, ◌≡◌, refl, ap, sym, ◌∙◌, ◌<◌, ◌≤◌, ◌+◌, ◌-◌, true, false, Option, none, some, List,
  [], ◌∷◌, ◌++◌, ltb, leb, if◌then◌else◌, length, GoString, is_empty_string, str_dec, sort_strings,
  ascending, distinct, ascending-sort_strings, elem-sort_strings, elem, arith, is_some, Bool-cases,
  inl, inr,
}
use iot_edge_db.GoMap.{Map, get, keys, elem-keys_lem, str_key}
use iot_edge_db.Types.{FileEntry}
use iot_edge_db.Manifest.Path.{validate_manifest_path}
use iot_edge_db.Manifest.State.{Manifest}
use iot_edge_db.Manifest.Consistent.{IsConsistent}
use iot_edge_db.Manifest.Readers.{files_at, append_found}
use iot_edge_db.Manifest.Pages.{
  page_between, drop, take, nth, start_of, or_thousand, paging_keys, or_sorted, Page, page_at,
  get_files_paginated, prepend, walk,
}
use iot_edge_db.Manifest.Cursors.{
  nth_of_lt, start_of-nth, drop_of_length, drop-drop, take_all, length-drop, take-append-drop,
}

append_found-append :
    (o : Option FileEntry) (xs ys : List FileEntry)
    → append_found o (xs ++ ys) ≡ append_found o xs ++ ys
append_found-append none xs ys = refl
append_found-append (some e) xs ys = refl

files_at-append :
    (files : Map GoString FileEntry) (ps qs : List GoString)
    → files_at files (ps ++ qs) ≡ files_at files ps ++ files_at files qs
unfolding files_at
files_at-append files [] qs = refl
files_at-append files (p ∷ ps) qs =
    ap (append_found (get files p)) (files_at-append files ps qs)
    ∙ append_found-append (get files p) (files_at files ps) (files_at files qs)

-- No path is empty.
no_blank :
    (m : Manifest)
    → IsConsistent m
    → (o : Option FileEntry) → get m.files [] ≡ o
    → get m.files [] ≡ none
unfolding validate_manifest_path
no_blank m c none e = e
no_blank m c (some f) e = ground (arith, c.valid [] f e)

-- What the caller returns that is given a page.
abbrev follow : ℕ → ℕ → Page → Option (List FileEntry)
follow fuel limit page =
    if is_empty_string page.next_cursor
    then some page.files
    else prepend page.files (walk fuel page.manifest page.next_cursor limit)

module _ (ks : List GoString) (asc : ascending ks ≡ true) (named : elem str_dec [] ks ≡ false)
    (limit : ℕ) where
  -- The last page.
  follow-last :
      (fuel p : ℕ) (m : Manifest)
      → p < length ks
      → follow fuel limit (page_between m ks p (length ks)) ≡ some (files_at m.files (drop p ks))
  follow-last fuel p m lt =
      let over : ltb (length ks) (length ks) ≡ false = ground arith in
      rw over (
        ap (λ xs. some (files_at m.files xs))
          (take_all (length ks - p) (drop p ks) (omega (arith, length-drop p ks))))

  -- A page that more follow.
  follow-more :
      (fuel p n : ℕ) (m : Manifest) (next : (c : GoString) × (nth ks (p + n) ≡ some c))
      → suc (p + n) < length ks
      → walk fuel m next.0 limit ≡ some (files_at m.files (drop (p + suc n) ks))
      → follow fuel limit (page_between m ks p (suc (p + n))) ≡ some (files_at m.files (drop p ks))
  follow-more fuel p n m (c, e) lt h =
      let under : ltb (suc (p + n)) (length ks) ≡ true = ground arith in
      let last : nth ks (suc (p + n) - 1) ≡ some c = ap (nth ks) (omega arith) ∙ e in
      let named' : is_empty_string c ≡ false = (start_of-nth c ks (p + n) asc named e).0 in
      let page = take (suc (p + n) - p) (drop p ks) in
      let size : suc (p + n) - p ≡ suc n = omega arith in
      let join : page ++ drop (p + suc n) ks ≡ drop p ks =
        (λ i. take (size i) (drop p ks) ++ drop-drop p (suc n) ks i)
        ∙ take-append-drop (suc n) (drop p ks) in
      rw under (
        rw last (
          rw named' (
            ap (prepend (files_at m.files page)) h
            ∙ ap some (
                sym (files_at-append m.files page (drop (p + suc n) ks))
                ∙ ap (files_at m.files) join))))

  paginated_lem :
      (p : ℕ) (m : Manifest) (c : GoString)
      → paging_keys m ≡ ks
      → start_of ks c ≡ p
      → get_files_paginated m c limit ≡ page_at m ks p (or_thousand limit)
  unfolding get_files_paginated
  paginated_lem p m c k s =
      (λ i. page_at m (k i) (start_of (k i) c) (or_thousand limit))
      ∙ ap (λ q. page_at m ks q (or_thousand limit)) s

  -- The pages from a cursor on are the files from the position of the cursor on.
  walk-from :
      (fuel p : ℕ) (m : Manifest) (c : GoString)
      → paging_keys m ≡ ks
      → start_of ks c ≡ p
      → p ≤ length ks
      → length ks < p + fuel
      → walk fuel m c limit ≡ some (files_at m.files (drop p ks))
  unfolding walk files_at paging_keys
  walk-from zero p m c k s le lt = absurd (omega arith)
  walk-from (suc fuel) p m c k s le lt =
      let size = or_thousand limit in
      let cached : Manifest = record m { keys_cache = some ks } in
      ap (follow fuel limit) (paginated_lem p m c k s) ∙ elim (Bool-cases (leb (length ks) p)) [
        | inl t ↦
            rw t (
              sym (ap (λ xs. some (files_at m.files xs)) (drop_of_length p ks (ground (arith, t)))))
        | inr t ↦ rw t (elim (Bool-cases (ltb (p + size) (length ks))) [
          | inl u ↦
              let n = size - 1 in
              let some_size : 0 < size = ground arith in
              let end : (if ltb (length ks) (p + size) then length ks else p + size) ≡ suc (p + n) =
                ground (arith, u) in
              let more : suc (p + n) < length ks = ground (arith, u) in
              let next = nth_of_lt ks (p + n) (omega arith) in
              let begins : start_of ks next.0 ≡ p + suc n =
                (start_of-nth next.0 ks (p + n) asc named next.1).1 ∙ omega arith in
              ap (λ q. follow fuel limit (page_between cached ks p q)) end
              ∙ follow-more fuel p n cached next more
                  (walk-from fuel (p + suc n) cached next.0 refl begins (omega arith) (omega arith))
          | inr u ↦
              let end : (if ltb (length ks) (p + size) then length ks else p + size) ≡ length ks =
                ground (arith, u) in
              ap (λ n. follow fuel limit (page_between cached ks p n)) end
              ∙ follow-last fuel p cached (ground (arith, t))
        ])
      ]

-- In a consistent manifest whose cache of keys is empty, and whose map gives each key once, a caller who starts
-- with the empty cursor and follows the cursors, whatever its limit, is given the empty cursor after at
-- most one call more than there are files, and has then been given the file of every path, in ascending order of
-- the paths, each once.
pub walk_complete :
    (m : Manifest) (limit : ℕ)
    → IsConsistent m
    → m.keys_cache ≡ none
    → distinct (keys m.files) ≡ true
    → let ks = sort_strings (keys m.files) in
      (walk (suc (length ks)) m [] limit ≡ some (files_at m.files ks))
      × (ascending ks ≡ true)
      × ((p : GoString) → elem str_dec p ks ≡ is_some (get m.files p))
unfolding paging_keys start_of drop
walk_complete m limit c e d =
    let ks = sort_strings (keys m.files) in
    let asc = ascending-sort_strings (keys m.files) d in
    let same : ((p : GoString) → elem str_dec p ks ≡ is_some (get m.files p)) =
      λ p. elem-sort_strings p (keys m.files) ∙ elem-keys_lem m.files p in
    (
      walk-from ks asc (same [] ∙ ap is_some (no_blank m c (get m.files []) refl)) limit
          (suc (length ks)) 0 m [] (ap (or_sorted m) e) refl (omega arith) (omega arith),
      asc,
      same,
    )
