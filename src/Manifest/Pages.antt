-- ===== src/Manifest/Pages.antt =====
-- GetFilesPaginated (internal/cluster/raft/fsm.go), and the caller that follows the cursors. The manifest does
-- not change between the two locks of a call.
use iot_edge_db.Prelude.{
  ℕ, zero, suc, ◌+◌, ◌-◌, ◌==◌, Bool, true, false, Option, none, some, List, [], ◌∷◌, ◌++◌, ltb,
  leb, if◌then◌else◌, length, GoString, is_empty_string, str_dec, str_ltb, sort_strings, ite,
}
use iot_edge_db.GoMap.{keys}
use iot_edge_db.Types.{FileEntry}
use iot_edge_db.Manifest.State.{Manifest}
use iot_edge_db.Manifest.Readers.{files_at}

unfoldable pub drop {ℓ} : {A : Type ℓ} → ℕ → List A → List A
drop zero xs = xs
drop (suc n) [] = []
drop (suc n) (x ∷ xs) = drop n xs

unfoldable pub take {ℓ} : {A : Type ℓ} → ℕ → List A → List A
take zero xs = []
take (suc n) [] = []
take (suc n) (x ∷ xs) = x ∷ take n xs

-- keys[i], where it is in range
unfoldable pub nth : List GoString → ℕ → Option GoString
nth [] i = none
nth (x ∷ xs) zero = some x
nth (x ∷ xs) (suc i) = nth xs i

-- sort.SearchStrings: the first index whose string is not less than the cursor
unfoldable pub search_strings : List GoString → GoString → ℕ
unfolding str_ltb
search_strings [] cursor = 0
search_strings (x ∷ xs) cursor =
    let rest = search_strings xs cursor in if str_ltb x cursor then suc rest else 0

abbrev pub is_at : Option GoString → GoString → Bool
is_at none cursor = false
is_at (some x) cursor = ite (str_dec x cursor) true false

unfoldable pub start_of : List GoString → GoString → ℕ
unfolding search_strings nth
start_of ks cursor =
    let idx = search_strings ks cursor in
    if is_empty_string cursor then 0 else if is_at (nth ks idx) cursor then idx + 1 else idx

abbrev pub or_thousand : ℕ → ℕ
or_thousand limit = if limit == 0 then 1000 else limit

-- The sorted keys, from the cache or built anew.
abbrev pub or_sorted : Manifest → Option (List GoString) → List GoString
or_sorted m (some ks) = ks
or_sorted m none = sort_strings (keys m.files)

unfoldable pub paging_keys : Manifest → List GoString
unfolding sort_strings
paging_keys m = or_sorted m m.keys_cache

abbrev pub or_blank : Option GoString → GoString
or_blank none = []
or_blank (some x) = x

pub record Page : Type 0 where
  pub files : List FileEntry
  pub next_cursor : GoString
  pub manifest : Manifest

abbrev pub page_between : Manifest → List GoString → ℕ → ℕ → Page
page_between m ks start end' = record {
  files = files_at m.files (take (end' - start) (drop start ks));
  next_cursor = if ltb end' (length ks) then or_blank (nth ks (end' - 1)) else [];
  manifest = m;
}

abbrev pub page_at : Manifest → List GoString → ℕ → ℕ → Page
page_at m ks start limit =
    let m' : Manifest = record m { keys_cache = some ks } in
    let end' = if ltb (length ks) (start + limit) then length ks else start + limit in
    if leb (length ks) start
    then record { files = []; next_cursor = []; manifest = m' }
    else page_between m' ks start end'

-- A limit that is not positive is given as 0.
unfoldable pub get_files_paginated : Manifest → GoString → ℕ → Page
unfolding paging_keys start_of files_at take drop nth
get_files_paginated m cursor limit =
    let ks = paging_keys m in page_at m ks (start_of ks cursor) (or_thousand limit)

-- A page before the files of the pages after it.
abbrev pub prepend : List FileEntry → Option (List FileEntry) → Option (List FileEntry)
prepend files none = none
prepend files (some rest) = some (files ++ rest)

-- The caller asks for the next page with the cursor that it was given, until the cursor is empty: the files of
-- all pages, or `none` when it has made as many calls as it was allowed and the cursor is not empty yet.
unfoldable pub walk : ℕ → Manifest → GoString → ℕ → Option (List FileEntry)
unfolding get_files_paginated
walk zero m cursor limit = none
walk (suc fuel) m cursor limit =
    let page = get_files_paginated m cursor limit in
    let rest = walk fuel page.manifest page.next_cursor limit in
    if is_empty_string page.next_cursor then some page.files else prepend page.files rest
