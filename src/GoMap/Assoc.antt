-- ===== src/GoMap/Assoc.antt =====
-- Association lists: what a map's operations do to its entries.
use iot_edge_db.Prelude.{
  ◌≡◌, refl, ite, true, false, Option, none, some, List, [], ◌∷◌, map, arith, is_some, elem, sym,
  if_pos, if_neg,
}

module _ {ℓ} {K V : Type ℓ} (dec : Discrete K) where
  unfoldable pub find : K → List (K × V) → Option V
  find a [] = none
  find a ((b, v) ∷ l) = ite (dec b a) (some v) (find a l)

  unfoldable pub without : K → List (K × V) → List (K × V)
  without a [] = []
  without a ((b, v) ∷ l) = let rest = without a l in ite (dec b a) rest ((b, v) ∷ rest)

  pub find-without :
      (a b : K) (l : List (K × V)) → find b (without a l) ≡ ite (dec a b) none (find b l)
  unfolding find without
  find-without a b [] = ground arith
  find-without a b ((c, v) ∷ l) = ground (arith, find-without a b l)

  pub elem-keys : (a : K) (l : List (K × V)) → elem dec a (map (λ e. e.0) l) ≡ is_some (find a l)
  unfolding find elem
  elem-keys a [] = refl
  elem-keys a ((b, v) ∷ l) = elim (dec a b) [
    | yes p ↦ elim (dec b a) [ yes q ↦ rw (if_pos _ p, if_pos _ q) | no q ↦ absurd (q (sym p)) ]
    | no p ↦ elim (dec b a) [
      | yes q ↦ absurd (p (sym q))
      | no q ↦ rw (if_neg _ p, if_neg _ q) (elem-keys a l)
    ]
  ]

  pub find_of_empty :
      (a : K) (l : List (K × V)) → elim l [ [] ↦ true | e ∷ r ↦ false ] ≡ true → find a l ≡ none
  unfolding find
  find_of_empty a [] h = refl
  find_of_empty a (e ∷ l) h = ground arith
