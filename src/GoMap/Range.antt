-- ===== src/GoMap/Range.antt =====
-- Loops `for k, v := range m` that build something from all the entries of a map.
use iot_edge_db.Prelude.{
  ◌≡◌, refl, sym, ap, ◌∙◌, ite, Bool, true, false, ◌&&◌, ◌||◌, Option, none, some, List, [], ◌∷◌,
  arith, is_some, elem, subst, if_neg,
}
use iot_edge_db.GoMap.Base.{Key, Map, get, keys, elem-keys_lem}

-- `for k, v := range m { acc = step(acc, k, v) }`
module _ {ℓ} {K V I : Type ℓ} ⦃key : Key K⦄ (step : I → K → V → I) where
  abbrev pub step_found : I → K → Option V → I
  step_found i k none = i
  step_found i k (some v) = step i k v

  unfoldable pub fold_keys : Map K V → List K → I → I
  fold_keys m [] i = i
  fold_keys m (k ∷ ks) i = fold_keys m ks (step_found i k (get m k))

  unfoldable pub fold_map : Map K V → I → I
  unfolding fold_keys
  fold_map m i = fold_keys m (keys m) i

-- An index that is rebuilt from a table answers every question as the table does, when one round
-- makes it answer for one more entry.
module _ {ℓ} {K V I Q : Type ℓ} ⦃key : Key K⦄ (step : I → K → V → I) (m : Map K V)
    (read : Q → K → I → Bool) (says : Q → Option V → Bool)
    (says-none : (q : Q) → says q none ≡ false)
    (round : (seen : K → Bool) (i : I) (k : K) (v : V)
      → get m k ≡ some v
      → ((q : Q) (x : K) → read q x i ≡ (seen x && says q (get m x)))
      → (q : Q) (x : K)
      → read q x (step i k v)
        ≡ ((seen x || ite (key.dec k x) true false) && says q (get m x))) where
  seen_then : (K → Bool) → K → K → Bool
  seen_then seen k x = seen x || ite (key.dec k x) true false

  read-step_found :
      (seen : K → Bool) (i : I) (k : K) (o : Option V)
      → get m k ≡ o
      → ((q : Q) (x : K) → read q x i ≡ (seen x && says q (get m x)))
      → (q : Q) (x : K)
      → read q x (step_found step i k o) ≡ (seen_then seen k x && says q (get m x))
  unfolding seen_then
  read-step_found seen i k none e h q x = ground (arith, h q x, says-none q)
  read-step_found seen i k (some v) e h q x = round seen i k v e h q x

  read-fold_keys :
      (seen : K → Bool) (ks : List K) (i : I)
      → ((q : Q) (x : K) → read q x i ≡ (seen x && says q (get m x)))
      → (q : Q) (x : K)
      → read q x (fold_keys step m ks i) ≡ ((seen x || elem key.dec x ks) && says q (get m x))
  unfolding fold_keys elem seen_then
  read-fold_keys seen [] i h q x = ground (arith, h q x)
  read-fold_keys seen (k ∷ ks) i h q x =
      let next = step_found step i k (get m k) in
      ground (
        arith,
        read-fold_keys (seen_then seen k) ks next (read-step_found seen i k (get m k) refl h) q x,
      )

  pub read-fold_map :
      (i : I)
      → ((q : Q) (x : K) → read q x i ≡ false)
      → (q : Q) (x : K) → read q x (fold_map step m i) ≡ says q (get m x)
  unfolding fold_map
  read-fold_map i h q x = ground (
    arith,
    read-fold_keys (λ x. false) (keys m) i (λ q x. h q x) q x,
    elem-keys_lem m x,
    says-none q,
  )

-- What every round of a loop keeps holds at its end.
module _ {ℓ} {K V I : Type ℓ} ⦃key : Key K⦄ (step : I → K → V → I) (m : Map K V) (Inv : I → Type ℓ)
    (keeps : (i : I) (k : K) (v : V) → get m k ≡ some v → Inv i → Inv (step i k v)) where
  step_found-keeps :
      (i : I) (k : K) (o : Option V) → get m k ≡ o → Inv i → Inv (step_found step i k o)
  step_found-keeps i k none e h = h
  step_found-keeps i k (some v) e h = keeps i k v e h

  fold_keys-keeps : (ks : List K) (i : I) → Inv i → Inv (fold_keys step m ks i)
  unfolding fold_keys
  fold_keys-keeps [] i h = h
  fold_keys-keeps (k ∷ ks) i h =
      fold_keys-keeps ks (step_found step i k (get m k)) (step_found-keeps i k (get m k) refl h)

  pub fold_map-keeps : (i : I) → Inv i → Inv (fold_map step m i)
  unfolding fold_map
  fold_map-keeps i h = fold_keys-keeps (keys m) i h

-- What the round of one entry establishes, and every round keeps, holds at the end.
module _ {ℓ} {K V I : Type ℓ} ⦃key : Key K⦄ (step : I → K → V → I) (m : Map K V) (Inv : I → Type ℓ)
    (keeps : (i : I) (k : K) (v : V) → get m k ≡ some v → Inv i → Inv (step i k v))
    (Done : I → Type ℓ) (k : K) (v : V) (e : get m k ≡ some v)
    (does : (i : I) → Inv i → Done (step i k v))
    (stays : (i : I) (x : K) (w : V) → get m x ≡ some w → Inv i → Done i → Done (step i x w)) where
  fold_keys-reaches :
      (ks : List K) (i : I) → elem key.dec k ks ≡ true → Inv i → Done (fold_keys step m ks i)
  unfolding fold_keys elem
  fold_keys-reaches [] i h c = cc
  fold_keys-reaches (x ∷ ks) i h c = elim (key.dec k x) [
    | yes p ↦
        (fold_keys-keeps step m (λ i. Inv i × Done i)
          (λ i x w h b. (keeps i x w h b.0, stays i x w h b.0 b.1)) ks
          (step_found step i x (get m x))
          (subst (λ o. Inv (step_found step i x o) × Done (step_found step i x o))
            (sym (ap (get m) (sym p) ∙ e))
            (subst (λ z. Inv (step i z v) × Done (step i z v)) p (keeps i k v e c, does i c)))).1
    | no p ↦
        fold_keys-reaches ks (step_found step i x (get m x)) (rw (if_neg _ p) at h)
          (step_found-keeps step m Inv keeps i x (get m x) refl c)
  ]

  pub fold_map-reaches : (i : I) → Inv i → Done (fold_map step m i)
  unfolding fold_map
  fold_map-reaches i c = fold_keys-reaches (keys m) i (elem-keys_lem m k ∙ ap is_some e) c
