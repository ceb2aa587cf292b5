-- ===== src/Prelude/Sorted.antt =====
-- Strings in the order of their bytes, and sorted lists of them.
use mathlib.Core.Path.{◌≡◌, refl}
use mathlib.Core.Logic.{ite}
use mathlib.Core.Bool.{Bool, true, false, not, ◌&&◌}
use mathlib.Core.List.{List, [], ◌∷◌}
use native.Mathlib.Omega.{arith}
use iot_edge_db.Prelude.Tests.{ltb, ◌==◌, if◌then◌else◌}
use iot_edge_db.Prelude.Text.{GoString, str_dec}
use iot_edge_db.Prelude.Lists.{elem}

-- s < t
unfoldable pub str_ltb : GoString → GoString → Bool
str_ltb s [] = false
str_ltb [] (d ∷ t) = true
str_ltb (c ∷ s) (d ∷ t) =
    let rest = str_ltb s t in if ltb c d then true else if c == d then rest else false

unfoldable pub insert : GoString → List GoString → List GoString
unfolding str_ltb
insert k [] = k ∷ []
insert k (x ∷ xs) = let rest = insert k xs in if str_ltb x k then x ∷ rest else k ∷ x ∷ xs

-- sort.Strings
unfoldable pub sort_strings : List GoString → List GoString
unfolding insert
sort_strings [] = []
sort_strings (k ∷ ks) = insert k (sort_strings ks)

unfoldable pub above : GoString → List GoString → Bool
unfolding str_ltb
above k [] = true
above k (x ∷ xs) = let rest = above k xs in str_ltb k x && rest

-- Each string is less than those after it.
unfoldable pub ascending : List GoString → Bool
unfolding above
ascending [] = true
ascending (k ∷ ks) = let rest = ascending ks in above k ks && rest

unfoldable pub distinct : List GoString → Bool
unfolding elem
distinct [] = true
distinct (k ∷ ks) = let rest = distinct ks in not (elem str_dec k ks) && rest

pub str_ltb-irreflexive : (s : GoString) → str_ltb s s ≡ false
unfolding str_ltb
str_ltb-irreflexive [] = refl
str_ltb-irreflexive (c ∷ s) = ground (arith, str_ltb-irreflexive s)

str_ltb-transitive :
    (s t u : GoString) → str_ltb s t ≡ true → str_ltb t u ≡ true → str_ltb s u ≡ true
unfolding str_ltb
str_ltb-transitive s t [] h k = ground arith
str_ltb-transitive s [] (e ∷ u) h k = ground arith
str_ltb-transitive [] (d ∷ t) (e ∷ u) h k = refl
str_ltb-transitive (c ∷ s) (d ∷ t) (e ∷ u) h k = ground (arith, str_ltb-transitive s t u)

-- Two strings that are not in order are equal or in the other order.
str_ltb-total :
    (s t : GoString)
    → str_ltb s t ≡ false
    → ite (str_dec t s) true false ≡ false
    → str_ltb t s ≡ true
unfolding str_ltb
str_ltb-total [] [] h n = ground arith
str_ltb-total [] (d ∷ t) h n = ground arith
str_ltb-total (c ∷ s) [] h n = refl
str_ltb-total (c ∷ s) (d ∷ t) h n = ground (arith, str_ltb-total s t)

above-insert :
    (x k : GoString) (xs : List GoString)
    → above x xs ≡ true
    → str_ltb x k ≡ true
    → above x (insert k xs) ≡ true
unfolding above insert
above-insert x k [] h l = ground arith
above-insert x k (y ∷ xs) h l = ground (arith, above-insert x k xs)

above_of_less :
    (k x : GoString) (xs : List GoString)
    → str_ltb k x ≡ true
    → above x xs ≡ true
    → above k xs ≡ true
unfolding above
above_of_less k x [] l h = refl
above_of_less k x (y ∷ xs) l h = ground (arith, above_of_less k x xs l, str_ltb-transitive k x y l)

ascending-insert :
    (k : GoString) (xs : List GoString)
    → ascending xs ≡ true
    → elem str_dec k xs ≡ false
    → ascending (insert k xs) ≡ true
unfolding ascending insert elem above
ascending-insert k [] h n = refl
ascending-insert k (x ∷ xs) h n =
    ground
      (arith, ascending-insert k xs, above-insert x k xs, above_of_less k x xs, str_ltb-total x k)

elem-insert :
    (a k : GoString) (xs : List GoString)
    → elem str_dec a (insert k xs) ≡ ite (str_dec a k) true (elem str_dec a xs)
unfolding insert elem
elem-insert a k [] = refl
elem-insert a k (x ∷ xs) = ground (arith, elem-insert a k xs)

pub elem-sort_strings :
    (a : GoString) (ks : List GoString) → elem str_dec a (sort_strings ks) ≡ elem str_dec a ks
unfolding sort_strings elem
elem-sort_strings a [] = refl
elem-sort_strings a (k ∷ ks) =
    ground (arith, elem-insert a k (sort_strings ks), elem-sort_strings a ks)

pub ascending-sort_strings :
    (ks : List GoString) → distinct ks ≡ true → ascending (sort_strings ks) ≡ true
unfolding sort_strings distinct ascending
ascending-sort_strings [] h = refl
ascending-sort_strings (k ∷ ks) h =
    ground (
      arith,
      ascending-sort_strings ks,
      ascending-insert k (sort_strings ks),
      elem-sort_strings k ks,
    )
