-- ===== src/GoMap/Sifted.antt =====
-- What the loop that keeps the entries which pass a test guarantees.
use iot_edge_db.Prelude.{
  ◌≡◌, refl, Bool, true, false, Option, none, some, arith, Bool-cases, ap, inl, inr, sym, ◌∙◌, ◌⊎◌,
}
use iot_edge_db.GoMap.Base.{Key, Map, empty, get, put, get-put, get-empty}
use iot_edge_db.GoMap.Range.{fold_map-keeps, fold_map-reaches}
use iot_edge_db.GoMap.Sift.{copied, get-copied, Sieve, sift, sift_entry}

-- Every entry that was kept is one of the map.
module _ {ℓ} {K V : Type ℓ} ⦃key : Key K⦄ where
  abbrev pub IsPart : Map K (Option V) → Map K V → Type ℓ
  IsPart m kept = (x : K) (w : V) → get kept x ≡ some w → get m x ≡ some (some w)

  missing_or_part :
      (m : Map K (Option V)) (kept : Map K V) (k : K) (v : V) (o : Option V)
      → get kept k ≡ o
      → IsPart m kept
      → get m k ≡ some (some v)
      → (get kept k ≡ none) ⊎ (get kept k ≡ some v)
  missing_or_part m kept k v none e part h = inl e
  missing_or_part m kept k v (some w) e part h = ground (arith, part k w)

  -- At a key of the map, the part holds nothing or the same entry.
  pub IsPart-get :
      (m : Map K (Option V)) (kept : Map K V) (k : K) (v : V)
      → IsPart m kept
      → get m k ≡ some (some v)
      → (get kept k ≡ none) ⊎ (get kept k ≡ some v)
  IsPart-get m kept k v part h = missing_or_part m kept k v (get kept k) refl part h

module _ {ℓ} {K V I : Type ℓ} ⦃key : Key K⦄ (accepts : I → K → V → Bool) (mark : I → K → V → I)
    (m : Map K (Option V)) (start : I) (Inv : Map K V → I → Type ℓ)
    (keeps : (kept : Map K V) (seen : I) (k : K) (v : V)
      → IsPart m kept
      → Inv kept seen
      → get m k ≡ some (some v)
      → accepts seen k v ≡ true
      → Inv (put kept k v) (mark seen k v))
    (base : Inv empty start) where
  Holds : Sieve K V I → Type ℓ
  Holds s = IsPart m s.kept × Inv s.kept s.seen

  put-IsPart :
      (kept : Map K V) (k : K) (v : V)
      → get m k ≡ some (some v)
      → IsPart m kept
      → IsPart m (put kept k v)
  put-IsPart kept k v e h x w j = ground (arith, get-put kept k v x, h x w)

  sift_entry-Holds :
      (s : Sieve K V I) (k : K) (o : Option V)
      → get m k ≡ some o
      → Holds s
      → Holds (sift_entry accepts mark s k o)
  unfolding Holds
  sift_entry-Holds s k none e h = h
  sift_entry-Holds s k (some v) e h = elim (Bool-cases (accepts s.seen k v)) [
    | inl t ↦ rw t (put-IsPart s.kept k v e h.0, keeps s.kept s.seen k v h.0 h.1 e t)
    | inr t ↦ rw t h
  ]

  base-Holds : Holds (record { kept = empty; seen = start; refused = 0 })
  unfolding Holds
  base-Holds = (λ x w j. ground (arith, get-empty {V = V} x), base)

  sift-Holds : Holds (sift accepts mark m start)
  unfolding sift
  sift-Holds = fold_map-keeps (sift_entry accepts mark) m Holds sift_entry-Holds _ base-Holds

  sift-Holds-IsPart : IsPart m (sift accepts mark m start).kept
  unfolding Holds
  sift-Holds-IsPart = sift-Holds.0

  pub sift-keeps : Inv (sift accepts mark m start).kept (sift accepts mark m start).seen
  unfolding Holds
  sift-keeps = sift-Holds.1

  -- When a test fails only on an entry that is kept already, every entry is kept.
  module _
      (again : (kept : Map K V) (seen : I) (k : K) (v : V)
        → IsPart m kept
        → Inv kept seen
        → get m k ≡ some (some v)
        → accepts seen k v ≡ false
        → get kept k ≡ some v)
      (k : K) (v : V) (e : get m k ≡ some (some v)) where
    IsKept : Sieve K V I → Type ℓ
    IsKept s = get s.kept k ≡ some v

    does-IsKept : (s : Sieve K V I) → Holds s → IsKept (sift_entry accepts mark s k (some v))
    unfolding Holds IsKept
    does-IsKept s h = elim (Bool-cases (accepts s.seen k v)) [
      | inl t ↦ rw t (ground (arith, get-put s.kept k v k))
      | inr t ↦ rw t (again s.kept s.seen k v h.0 h.1 e t)
    ]

    stays-IsKept :
        (s : Sieve K V I) (x : K) (o : Option V)
        → get m x ≡ some o
        → Holds s
        → IsKept s
        → IsKept (sift_entry accepts mark s x o)
    unfolding IsKept
    stays-IsKept s x none h c d = d
    stays-IsKept s x (some w) h c d = elim (Bool-cases (accepts s.seen x w)) [
      | inl t ↦ rw t (elim (key.dec x k) [
        | yes p ↦ ground (arith, get-put s.kept x w k, ap (get m) p)
        | no p ↦ ground (arith, get-put s.kept x w k)
      ])
      | inr t ↦ rw t d
    ]

    pub sift-all : get (sift accepts mark m start).kept k ≡ some v
    unfolding sift IsKept
    sift-all =
        fold_map-reaches (sift_entry accepts mark) m Holds sift_entry-Holds IsKept k (some v) e
          does-IsKept stays-IsKept _ base-Holds

module _ {ℓ} {K V : Type ℓ} ⦃key : Key K⦄ (m : Map K (Option V)) where
  -- What is kept is a part of the map, whatever the test.
  pub sift-IsPart :
      {I : Type ℓ}
      → (accepts : I → K → V → Bool) (mark : I → K → V → I) (start : I)
      → IsPart m (sift accepts mark m start).kept
  sift-IsPart accepts mark start =
      sift-Holds-IsPart accepts mark m start (λ kept seen. Unit) (λ kept seen k v h c e t. tt) tt

  -- When nothing is marked, what is kept passes the test.
  pub sift_passed :
      (accepts : Unit {ℓ} → K → V → Bool) (mark : Unit {ℓ} → K → V → Unit {ℓ}) (k : K) (v : V)
      → get (sift accepts mark m tt).kept k ≡ some v
      → accepts tt k v ≡ true
  sift_passed accepts mark k v =
      sift-keeps accepts mark m tt
        (λ kept u. (x : K) (w : V) → get kept x ≡ some w → accepts tt x w ≡ true)
        (λ kept u x w p c e t y z h. elim (key.dec x y) [
          | yes q ↦ ground (arith, get-put kept x w y, ap (λ a. accepts tt a w) q)
          | no q ↦ ground (arith, get-put kept x w y, c y z)
        ])
        (λ x w h. ground (arith, get-empty {V = V} x)) k v

-- The entries of a copy that a loop keeps.
module _ {ℓ} {K V : Type ℓ} ⦃key : Key K⦄ (t : Map K V) where
  pub copied_of_get : (k : K) (v : V) → get t k ≡ some v → get (copied some t) k ≡ some (some v)
  copied_of_get k v e = ground (arith, get-copied some t k)

  pub get_of_copied : (k : K) (v : V) → get (copied some t) k ≡ some (some v) → get t k ≡ some v
  get_of_copied k v e = ground (arith, get-copied some t k)

  pub kept_of_copied :
      (kept : Map K V)
      → IsPart (copied some t) kept
      → ((k : K) (v : V) → get (copied some t) k ≡ some (some v) → get kept k ≡ some v)
      → (k : K) → get kept k ≡ get t k
  kept_of_copied kept part all k = kept_of_found kept part all k (get t k) refl (get kept k) refl
    where
      kept_of_found :
          (kept : Map K V)
          → IsPart (copied some t) kept
          → ((k : K) (v : V) → get (copied some t) k ≡ some (some v) → get kept k ≡ some v)
          → (k : K) (o : Option V) → get t k ≡ o
          → (p : Option V) → get kept k ≡ p
          → get kept k ≡ get t k
      kept_of_found kept part all k (some v) e p h = all k v (copied_of_get k v e) ∙ sym e
      kept_of_found kept part all k none e none h = h ∙ sym e
      kept_of_found kept part all k none e (some v) h = h ∙ sym (get_of_copied k v (part k v h))

  -- A loop whose test every entry passes keeps them all.
  pub kept_of_unmarked :
      (accepts : Unit {ℓ} → K → V → Bool) (mark : Unit {ℓ} → K → V → Unit {ℓ})
      → ((k : K) (v : V) → get t k ≡ some v → accepts tt k v ≡ true)
      → (k : K) → get (sift accepts mark (copied some t) tt).kept k ≡ get t k
  kept_of_unmarked accepts mark all =
      let m = copied some t in
      kept_of_copied (sift accepts mark m tt).kept (sift-IsPart m accepts mark tt) (
        sift-all accepts mark m tt (λ kept u. Unit) (λ kept u k v part i e h. tt) tt
          (λ kept u k v part i e h. ground (arith, all k v (get_of_copied k v e))))
