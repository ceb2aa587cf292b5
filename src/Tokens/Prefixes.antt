-- ===== src/Tokens/Prefixes.antt =====
-- The index from a token's prefix to its ids, `tokensByPrefix` (internal/cluster/raft/fsm.go), and
-- what its two operations do to membership.
use iot_edge_db.Prelude.{
  ◌≡◌, refl, ite, true, false, Option, none, some, List, [], ◌∷◌, ◌++◌, arith, GoString, str_dec,
  elem, ℤ, int_dec,
}
use iot_edge_db.GoMap.{Map, get, put, remove, get-put, get-remove, str_key}

-- m[prefix], where a missing key reads as the nil slice
unfoldable pub ids_at : Option (List ℤ) → List ℤ
ids_at none = []
ids_at (some ids) = ids

unfoldable pub prefix_ids : Map GoString (List ℤ) → GoString → List ℤ
unfolding ids_at
prefix_ids m q = ids_at (get m q)

-- m[prefix] = append(m[prefix], id)
unfoldable pub add_prefix : Map GoString (List ℤ) → GoString → ℤ → Map GoString (List ℤ)
unfolding prefix_ids
add_prefix m q id = put m q (prefix_ids m q ++ id ∷ [])

-- The loop that keeps the ids other than `id`.
unfoldable pub without_id : ℤ → List ℤ → List ℤ
without_id id [] = []
without_id id (x ∷ xs) = let rest = without_id id xs in ite (int_dec x id) rest (x ∷ rest)

abbrev store_ids : Map GoString (List ℤ) → GoString → List ℤ → Map GoString (List ℤ)
store_ids m q [] = remove m q
store_ids m q (x ∷ xs) = put m q (x ∷ xs)

abbrev drop_ids : Map GoString (List ℤ) → GoString → ℤ → Option (List ℤ) → Map GoString (List ℤ)
drop_ids m q id none = m
drop_ids m q id (some ids) = store_ids m q (without_id id ids)

-- The prefix forgets the id, and is dropped when it has none left.
unfoldable pub drop_prefix : Map GoString (List ℤ) → GoString → ℤ → Map GoString (List ℤ)
unfolding without_id
drop_prefix m q id = drop_ids m q id (get m q)

module _ (x id : ℤ) where
  elem-without_id :
      (ids : List ℤ)
      → elem int_dec x (without_id id ids) ≡ ite (int_dec x id) false (elem int_dec x ids)
  unfolding without_id elem
  elem-without_id [] = ground arith
  elem-without_id (y ∷ ids) = ground (arith, elem-without_id ids)

  elem-snoc :
      (ids : List ℤ)
      → elem int_dec x (ids ++ id ∷ []) ≡ ite (int_dec x id) true (elem int_dec x ids)
  unfolding elem
  elem-snoc [] = ground arith
  elem-snoc (y ∷ ids) = ground (arith, elem-snoc ids)

  pub elem-add_prefix :
      (m : Map GoString (List ℤ)) (q r : GoString)
      → elem int_dec x (prefix_ids (add_prefix m q id) r)
        ≡ ite
            (str_dec q r)
            (ite (int_dec x id) true (elem int_dec x (prefix_ids m r)))
            (elem int_dec x (prefix_ids m r))
  unfolding add_prefix
  elem-add_prefix m q r =
      ground (arith, get-put m q (prefix_ids m q ++ id ∷ []) r, elem-snoc (prefix_ids m q))

  elem-store_ids :
      (m : Map GoString (List ℤ)) (q r : GoString) (ids : List ℤ)
      → elem int_dec x (prefix_ids (store_ids m q ids) r)
        ≡ ite (str_dec q r) (elem int_dec x ids) (elem int_dec x (prefix_ids m r))
  unfolding prefix_ids elem
  elem-store_ids m q r [] = ground (arith, get-remove m q r)
  elem-store_ids m q r (y ∷ ids) = ground (arith, get-put m q (y ∷ ids) r)

  elem-drop_ids :
      (m : Map GoString (List ℤ)) (q r : GoString) (o : Option (List ℤ))
      → get m q ≡ o
      → elem int_dec x (prefix_ids (drop_ids m q id o) r)
        ≡ ite
            (str_dec q r)
            (ite (int_dec x id) false (elem int_dec x (prefix_ids m r)))
            (elem int_dec x (prefix_ids m r))
  unfolding prefix_ids elem
  elem-drop_ids m q r none e = ground arith
  elem-drop_ids m q r (some ids) e =
      ground (arith, elem-store_ids m q r (without_id id ids), elem-without_id ids)

  pub elem-drop_prefix :
      (m : Map GoString (List ℤ)) (q r : GoString)
      → elem int_dec x (prefix_ids (drop_prefix m q id) r)
        ≡ ite
            (str_dec q r)
            (ite (int_dec x id) false (elem int_dec x (prefix_ids m r)))
            (elem int_dec x (prefix_ids m r))
  unfolding drop_prefix
  elem-drop_prefix m q r = elem-drop_ids m q r (get m q) refl
