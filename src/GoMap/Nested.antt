-- ===== src/GoMap/Nested.antt =====
-- Two-level maps, as the secondary indices of the program use them: `m[a][b]`, with the inner map
-- made on demand and dropped when it is empty.
use iot_edge_db.Prelude.{◌≡◌, refl, ite, Option, none, some, arith, is_some, elem, if◌then◌else◌}
use iot_edge_db.GoMap.Base.{
  Key, Map, empty, get, put, remove, keys, is_empty, get-put, get-remove, get-empty, elem-keys_lem,
  get_of_is_empty,
}

abbrev pub Index {ℓ} : Type ℓ → Type ℓ → Type ℓ → Type ℓ
Index A B V = Map A (Map B V)

-- The inner map, or the nil map of a missing key, which reads as empty.
abbrev or_empty {ℓ} : {B V : Type ℓ} → Option (Map B V) → Map B V
or_empty none = empty
or_empty (some m) = m

module _ {ℓ} {A B V : Type ℓ} ⦃ka : Key A⦄ ⦃kb : Key B⦄ where
  -- `m[a]`, read only
  unfoldable pub inner : Index A B V → A → Map B V
  inner m a = or_empty (get m a)

  -- `v, ok := m[a][b]`
  unfoldable pub at : Index A B V → A → B → Option V
  unfolding inner
  at m a b = get (inner m a) b

  -- `x, ok := m[a]; if !ok { x = make(...); m[a] = x }; x[b] = v`
  unfoldable pub add : Index A B V → A → B → V → Index A B V
  unfolding inner
  add m a b v = put m a (put (inner m a) b v)

  -- `if x, ok := m[a]; ok { delete(x, b); if len(x) == 0 { delete(m, a) } }`
  shrink : Index A B V → A → Map B V → Index A B V
  shrink m a rest = if is_empty rest then remove m a else put m a rest

  drop_from : Index A B V → A → B → Option (Map B V) → Index A B V
  unfolding shrink
  drop_from m a b none = m
  drop_from m a b (some x) = shrink m a (remove x b)

  unfoldable pub drop : Index A B V → A → B → Index A B V
  unfolding drop_from
  drop m a b = drop_from m a b (get m a)

  pub at-add :
      (m : Index A B V) (a : A) (b : B) (v : V) (c : A) (d : B)
      → at (add m a b v) c d ≡ ite (ka.dec a c) (ite (kb.dec b d) (some v) (at m c d)) (at m c d)
  unfolding at add
  at-add m a b v c d =
      ground (arith, get-put m a (put (inner m a) b v) c, get-put (inner m a) b v d)

  at-shrink :
      (m : Index A B V) (a : A) (x : Map B V) (c : A) (d : B)
      → at (shrink m a x) c d ≡ ite (ka.dec a c) (get x d) (at m c d)
  unfolding at shrink
  at-shrink m a x c d =
      ground (arith, get-put m a x c, get-remove m a c, get_of_is_empty x d, get-empty {V = V} d)

  at_of_get :
      (m : Index A B V) (a : A) (d : B) {o : Option (Map B V)}
      → get m a ≡ o
      → at m a d ≡ get (or_empty o) d
  unfolding at
  at_of_get m a d e = rw e

  at-drop_from :
      (m : Index A B V) (a : A) (b : B) (c : A) (d : B) (o : Option (Map B V))
      → get m a ≡ o
      → at (drop_from m a b o) c d ≡ ite (ka.dec a c) (ite (kb.dec b d) none (at m c d)) (at m c d)
  unfolding drop_from
  at-drop_from m a b c d none e = ground (arith, at_of_get m a d e, get-empty {V = V} d)
  at-drop_from m a b c d (some x) e =
      ground (arith, at-shrink m a (remove x b) c d, get-remove x b d, at_of_get m a d e)

  pub at-drop :
      (m : Index A B V) (a : A) (b : B) (c : A) (d : B)
      → at (drop m a b) c d ≡ ite (ka.dec a c) (ite (kb.dec b d) none (at m c d)) (at m c d)
  unfolding drop
  at-drop m a b c d = at-drop_from m a b c d (get m a) refl

  -- `delete(m, a)` forgets every `b` below `a`.
  pub at-remove :
      (m : Index A B V) (a c : A) (d : B) → at (remove m a) c d ≡ ite (ka.dec a c) none (at m c d)
  unfolding at
  at-remove m a c d = ground (arith, get-remove m a c, get-empty {V = V} d)

  -- `range m[a]` visits the keys that `m[a]` has.
  pub elem-keys-inner :
      (m : Index A B V) (a : A) (b : B) → elem kb.dec b (keys (inner m a)) ≡ is_some (at m a b)
  unfolding at
  elem-keys-inner m a b = elem-keys_lem (inner m a) b

  pub at-empty : (a : A) (b : B) → at empty a b ≡ none
  unfolding at
  at-empty a b = ground (arith, get-empty {V = Map B V} a, get-empty {V = V} b)

  -- `delete(x, b); x[b2] = v` for the inner map `x` of `a`.
  unfoldable pub rename : Index A B V → A → B → B → V → Index A B V
  unfolding inner
  rename m a b b2 v = put m a (put (remove (inner m a) b) b2 v)

  pub at-rename :
      (m : Index A B V) (a : A) (b b2 : B) (v : V) (c : A) (d : B)
      → at (rename m a b b2 v) c d
        ≡ ite
            (ka.dec a c)
            (ite (kb.dec b2 d) (some v) (ite (kb.dec b d) none (at m c d)))
            (at m c d)
  unfolding at rename
  at-rename m a b b2 v c d = ground (
    arith,
    get-put m a (put (remove (inner m a) b) b2 v) c,
    get-put (remove (inner m a) b) b2 v d,
    get-remove (inner m a) b d,
  )

  pub get-inner : (m : Index A B V) (a : A) (b : B) → get (inner m a) b ≡ at m a b
  unfolding at
  get-inner m a b = refl
