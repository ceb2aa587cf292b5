-- ===== src/GoMap/Base.antt =====
-- A map and its laws.
use iot_edge_db.GoMap.Assoc.{find, without, find-without, elem-keys, find_of_empty}
use iot_edge_db.Prelude.{
  ◌≡◌, refl, ite, Bool, true, false, Option, none, some, List, [], ◌∷◌, map, arith, is_some, elem,
}

-- Keys that can be compared.
pub record Key {ℓ} (K : Type ℓ) : Type ℓ where
  pub dec : Discrete K

pub record Map {ℓ} (K V : Type ℓ) : Type ℓ where
  entries : List (K × V)

unfoldable pub empty {ℓ} : {K V : Type ℓ} → Map K V
empty = record { entries = [] }

-- The keys that `for k := range m` visits.
unfoldable pub keys {ℓ} : {K V : Type ℓ} → Map K V → List K
keys m = map (λ e. e.0) m.entries

-- len(m) == 0
unfoldable pub is_empty {ℓ} : {K V : Type ℓ} → Map K V → Bool
is_empty m = elim m.entries [ [] ↦ true | e ∷ l ↦ false ]

module _ {ℓ} {K V : Type ℓ} ⦃k : Key K⦄ where
  -- v, ok := m[a]
  unfoldable pub get : Map K V → K → Option V
  unfolding find
  get m a = find k.dec a m.entries

  -- m[a] = v
  unfoldable pub put : Map K V → K → V → Map K V
  unfolding without
  put m a v = record { entries = (a, v) ∷ without k.dec a m.entries }

  -- delete(m, a)
  unfoldable pub remove : Map K V → K → Map K V
  unfolding without
  remove m a = record { entries = without k.dec a m.entries }

  pub get-put :
      (m : Map K V) (a : K) (v : V) (b : K) → get (put m a v) b ≡ ite (k.dec a b) (some v) (get m b)
  unfolding get put find
  get-put m a v b = ground (arith, find-without k.dec a b m.entries)

  pub get-remove : (m : Map K V) (a b : K) → get (remove m a) b ≡ ite (k.dec a b) none (get m b)
  unfolding get remove
  get-remove m a b = find-without k.dec a b m.entries

  pub get-empty : (b : K) → get (empty {V = V}) b ≡ none
  unfolding get empty find
  get-empty b = refl

  pub elem-keys_lem : (m : Map K V) (b : K) → elem k.dec b (keys m) ≡ is_some (get m b)
  unfolding get keys
  elem-keys_lem m b = elem-keys k.dec b m.entries

  pub get_of_is_empty : (m : Map K V) (b : K) → is_empty m ≡ true → get m b ≡ none
  unfolding get is_empty
  get_of_is_empty m b h = find_of_empty k.dec b m.entries h
