-- ===== src/GoMap/Loops.antt =====
-- Loops over the keys and the values of a map.
use iot_edge_db.Prelude.{
  ◌≡◌, refl, ap, sym, ◌∙◌, if_neg, ◌⊎◌, inl, inr, true, Option, none, some, List, [], ◌∷◌, arith,
  is_some, elem, if◌then◌else◌,
}
use iot_edge_db.GoMap.Base.{Key, Map, get, remove, keys, get-remove, elem-keys_lem}

cons_some {ℓ} : {V : Type ℓ} → Option V → List V → List V
cons_some none rest = rest
cons_some (some v) rest = v ∷ rest

module _ {ℓ} {V : Type ℓ} (dec : Discrete V) where
  elem-cons_some :
      (o : Option V) (v : V) (rest : List V)
      → (o ≡ some v) ⊎ (elem dec v rest ≡ true)
      → elem dec v (cons_some o rest) ≡ true
  unfolding cons_some elem
  elem-cons_some none v rest h = ground arith
  elem-cons_some (some w) v rest h = ground arith

  elem-cons_some_cases :
      (o : Option V) (v : V) (rest : List V)
      → elem dec v (cons_some o rest) ≡ true
      → (o ≡ some v) ⊎ (elem dec v rest ≡ true)
  unfolding cons_some elem
  elem-cons_some_cases none v rest h = inr h
  elem-cons_some_cases (some w) v rest h = ground arith

module _ {ℓ} {K V : Type ℓ} ⦃k : Key K⦄ where
  -- `for _, a := range as { delete(m, a) }`
  unfoldable pub remove_all : Map K V → List K → Map K V
  remove_all m [] = m
  remove_all m (a ∷ ks) = remove_all (remove m a) ks

  pub get-remove_all :
      (m : Map K V) (ks : List K) (b : K)
      → get (remove_all m ks) b ≡ (if elem k.dec b ks then none else get m b)
  unfolding remove_all elem
  get-remove_all m [] b = refl
  get-remove_all m (a ∷ ks) b = ground (arith, get-remove_all (remove m a) ks b, get-remove m a b)

  -- m[a] for each of the keys
  values_at : Map K V → List K → List V
  unfolding cons_some
  values_at m [] = []
  values_at m (a ∷ ks) = cons_some (get m a) (values_at m ks)

  -- The values that `for _, v := range m` visits.
  unfoldable pub values : Map K V → List V
  unfolding values_at
  values m = values_at m (keys m)

module _ {ℓ} {K V : Type ℓ} ⦃k : Key K⦄ (dec : Discrete V) (m : Map K V) where
  elem-values_at :
      (ks : List K) (a : K) (v : V)
      → elem k.dec a ks ≡ true
      → get m a ≡ some v
      → elem dec v (values_at m ks) ≡ true
  unfolding values_at elem
  elem-values_at [] a v h e = cc
  elem-values_at (b ∷ ks) a v h e = elim (k.dec a b) [
    | yes p ↦ elem-cons_some dec (get m b) v (values_at m ks) (inl (ap (get m) (sym p) ∙ e))
    | no p ↦
        elem-cons_some dec (get m b) v (values_at m ks)
          (inr (elem-values_at ks a v (rw (if_neg _ p) at h) e))
  ]

  -- Every value of the map is visited.
  pub elem-values : (a : K) (v : V) → get m a ≡ some v → elem dec v (values m) ≡ true
  unfolding values
  elem-values a v e = elem-values_at (keys m) a v (elem-keys_lem m a ∙ ap is_some e) e

  value_of_elem_at :
      (ks : List K) (v : V) → elem dec v (values_at m ks) ≡ true → (a : K) × (get m a ≡ some v)
  unfolding values_at elem
  value_of_elem_at [] v h = cc
  value_of_elem_at (b ∷ ks) v h = elim (elem-cons_some_cases dec (get m b) v (values_at m ks) h) [
    | inl e ↦ (b, e)
    | inr e ↦ value_of_elem_at ks v e
  ]

  -- Every value that is visited is one of the map.
  pub value_of_elem : (v : V) → elem dec v (values m) ≡ true → (a : K) × (get m a ≡ some v)
  unfolding values
  value_of_elem v h = value_of_elem_at (keys m) v h
