-- ===== src/GoMap/Sift.antt =====
-- Two loops over a map that make another one: the copy of every entry, and the entries that a test
-- accepts.
use iot_edge_db.Prelude.{
  ℕ, ◌+◌, ◌≡◌, refl, ◌⊎◌, inl, inr, Bool, Option, none, some, arith, if◌then◌else◌,
}
use iot_edge_db.GoMap.Base.{Key, Map, empty, get, put, get-put, get-empty}
use iot_edge_db.GoMap.Range.{fold_map, fold_map-keeps, fold_map-reaches}

-- `c := make(...); for k, v := range m { c[k] = wrap(v) }`
module _ {ℓ} {K V W : Type ℓ} ⦃key : Key K⦄ (wrap : V → W) (m : Map K V) where
  abbrev pub wrapped : Option V → Option W
  wrapped none = none
  wrapped (some v) = some (wrap v)

  copy_entry : Map K W → K → V → Map K W
  copy_entry c k v = put c k (wrap v)

  unfoldable pub copied : Map K W
  unfolding fold_map copy_entry
  copied = fold_map copy_entry m empty

  IsPart : Map K W → Type ℓ
  IsPart c = (x : K) → (get c x ≡ none) ⊎ (get c x ≡ wrapped (get m x))

  copy_entry-IsPart :
      (c : Map K W) (k : K) (v : V) → get m k ≡ some v → IsPart c → IsPart (copy_entry c k v)
  unfolding IsPart copy_entry
  copy_entry-IsPart c k v e h x = elim (key.dec k x) [
    | yes p ↦ inr (ground (arith, get-put c k (wrap v) x))
    | no p ↦ ground (arith, get-put c k (wrap v) x, h x)
  ]

  copied-IsPart : IsPart copied
  unfolding copied IsPart
  copied-IsPart =
      fold_map-keeps copy_entry m IsPart copy_entry-IsPart empty (λ x. inl (get-empty {V = W} x))

  get-copied_found : (x : K) (o : Option V) → get m x ≡ o → get copied x ≡ wrapped o
  unfolding copied IsPart copy_entry
  get-copied_found x none e = ground (arith, copied-IsPart x)
  get-copied_found x (some v) e =
      fold_map-reaches copy_entry m IsPart copy_entry-IsPart (λ c. get c x ≡ some (wrap v)) x v e
        (λ c h. ground (arith, get-put c x (wrap v) x))
        (λ c y w j h d. ground (arith, get-put c y (wrap w) x)) empty
        (λ x. inl (get-empty {V = W} x))

  -- The copy holds the image of every entry, and nothing else.
  pub get-copied : (x : K) → get copied x ≡ wrapped (get m x)
  get-copied x = get-copied_found x (get m x) refl

-- The state of a loop that keeps the entries which pass a test: what it has kept, what it has
-- marked as seen, and how many entries it has refused.
pub record Sieve {ℓ} (K V I : Type ℓ) : Type ℓ where
  pub kept : Map K V
  pub seen : I
  pub refused : ℕ

-- `for k, v := range m { if v == nil || !accepts { refused++; continue }; kept[k] = v; mark }`
module _ {ℓ} {K V I : Type ℓ} ⦃key : Key K⦄ (accepts : I → K → V → Bool)
    (mark : I → K → V → I) where
  abbrev pub refuse : Sieve K V I → Sieve K V I
  refuse s = record s { refused = s.refused + 1 }

  abbrev pub keep : Sieve K V I → K → V → Sieve K V I
  keep s k v = record s { kept = put s.kept k v; seen = mark s.seen k v }

  abbrev pub sift_entry : Sieve K V I → K → Option V → Sieve K V I
  sift_entry s k none = refuse s
  sift_entry s k (some v) = if accepts s.seen k v then keep s k v else refuse s

  unfoldable pub sift : Map K (Option V) → I → Sieve K V I
  unfolding fold_map
  sift m i = fold_map sift_entry m (record { kept = empty; seen = i; refused = 0 })
