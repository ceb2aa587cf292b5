-- ===== src/GoMap/Every.antt =====
-- A test that every value of a map passes.
use iot_edge_db.Prelude.{
  ◌≡◌, ap, ◌∙◌, ◌&&◌, Bool, true, Option, none, some, List, [], ◌∷◌, arith, is_some, elem,
}
use iot_edge_db.GoMap.Base.{Key, Map, get, keys, elem-keys_lem}

module _ {ℓ} {K V : Type ℓ} ⦃key : Key K⦄ (test : V → Bool) (m : Map K V) where
  abbrev found_passes : Option V → Bool
  found_passes none = true
  found_passes (some v) = test v

  every_at : List K → Bool
  every_at [] = true
  every_at (a ∷ ks) = let rest = every_at ks in found_passes (get m a) && rest

  unfoldable pub every : Bool
  unfolding every_at
  every = every_at (keys m)

  every_at-get :
      (ks : List K) (a : K) (v : V)
      → every_at ks ≡ true
      → elem key.dec a ks ≡ true
      → get m a ≡ some v
      → test v ≡ true
  unfolding every_at elem
  every_at-get [] a v h e g = cc
  every_at-get (b ∷ ks) a v h e g = elim (key.dec a b) [
    | yes p ↦ ground (arith, ap (get m) p)
    | no p ↦ ground (arith, every_at-get ks a v)
  ]

  pub every-get : (a : K) (v : V) → every ≡ true → get m a ≡ some v → test v ≡ true
  unfolding every
  every-get a v h g = every_at-get (keys m) a v h (elem-keys_lem m a ∙ ap is_some g) g
