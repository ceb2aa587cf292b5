-- ===== src/Manifest/Cursors.antt =====
-- Positions in the sorted keys, and the cursors that stand for them (internal/cluster/raft/fsm.go).
use iot_edge_db.Prelude.{
  ℕ, zero, suc, ◌≡◌, refl, ap, sym, ◌∙◌, ◌≤◌, ◌<◌, ◌+◌, ◌-◌, true, false, some, List, [], ◌∷◌, ◌++◌,
  length, GoString, is_empty_string, str_dec, str_ltb, str_ltb-irreflexive, above, ascending, elem,
  arith,
}
use iot_edge_db.GoMap.{str_key}
use iot_edge_db.Manifest.Pages.{drop, take, nth, search_strings, start_of}

above-nth :
    (k c : GoString) (ks : List GoString) (i : ℕ)
    → above k ks ≡ true
    → nth ks i ≡ some c
    → str_ltb k c ≡ true
unfolding above nth
above-nth k c [] i h e = ground arith
above-nth k c (x ∷ ks) zero h e = ground arith
above-nth k c (x ∷ ks) (suc i) h e = ground (arith, above-nth k c ks i)

search-nth :
    (c : GoString) (ks : List GoString) (i : ℕ)
    → ascending ks ≡ true
    → nth ks i ≡ some c
    → search_strings ks c ≡ i
unfolding search_strings nth ascending
search-nth c [] i h e = ground arith
search-nth c (x ∷ ks) zero h e = ground (arith, str_ltb-irreflexive x)
search-nth c (x ∷ ks) (suc i) h e = ground (arith, search-nth c ks i, above-nth x c ks i)

nth-elem :
    (c : GoString) (ks : List GoString) (i : ℕ) → nth ks i ≡ some c → elem str_dec c ks ≡ true
unfolding nth elem
nth-elem c [] i e = ground arith
nth-elem c (x ∷ ks) zero e = ground arith
nth-elem c (x ∷ ks) (suc i) e = ground (arith, nth-elem c ks i)

pub nth_of_lt : (ks : List GoString) (i : ℕ) → i < length ks → (c : GoString) × (nth ks i ≡ some c)
unfolding nth
nth_of_lt [] i lt = absurd (omega arith)
nth_of_lt (x ∷ ks) zero lt = (x, refl)
nth_of_lt (x ∷ ks) (suc i) lt = nth_of_lt ks i (omega arith)

-- The cursor of a page that ends with this key is the position after it.
pub start_of-nth :
    (c : GoString) (ks : List GoString) (i : ℕ)
    → ascending ks ≡ true
    → elem str_dec [] ks ≡ false
    → nth ks i ≡ some c
    → (is_empty_string c ≡ false) × (start_of ks c ≡ suc i)
unfolding start_of
start_of-nth [] ks i h n e = ground (arith, nth-elem [] ks i e)
start_of-nth (b ∷ c) ks i h n e = (
  refl,
  ground (arith, e, search-nth (b ∷ c) ks i h e, ap (nth ks) (search-nth (b ∷ c) ks i h e)),
)

module _ {ℓ} {A : Type ℓ} where
  pub drop_of_length : (n : ℕ) (xs : List A) → length xs ≤ n → drop n xs ≡ []
  unfolding drop
  drop_of_length zero [] le = refl
  drop_of_length zero (x ∷ xs) le = absurd (omega arith)
  drop_of_length (suc n) [] le = refl
  drop_of_length (suc n) (x ∷ xs) le = drop_of_length n xs (omega arith)

  pub drop-drop : (p n : ℕ) (xs : List A) → drop (p + n) xs ≡ drop n (drop p xs)
  unfolding drop
  drop-drop zero n xs = ap (λ k. drop k xs) (omega arith)
  drop-drop (suc p) n [] =
      drop_of_length (suc p + n) [] (omega arith) ∙ sym (drop_of_length n [] (omega arith))
  drop-drop (suc p) n (x ∷ xs) =
      ap (λ k. drop k (x ∷ xs)) {y = suc (p + n)} (omega arith) ∙ drop-drop p n xs

  pub take_all : (n : ℕ) (xs : List A) → length xs ≤ n → take n xs ≡ xs
  unfolding take
  take_all zero [] le = refl
  take_all zero (x ∷ xs) le = absurd (omega arith)
  take_all (suc n) [] le = refl
  take_all (suc n) (x ∷ xs) le = ap (λ ys. x ∷ ys) (take_all n xs (omega arith))

  pub length-drop : (n : ℕ) (xs : List A) → length (drop n xs) ≡ length xs - n
  unfolding drop
  length-drop zero xs = omega arith
  length-drop (suc n) [] = omega arith
  length-drop (suc n) (x ∷ xs) = length-drop n xs ∙ omega arith

  pub take-append-drop : (n : ℕ) (xs : List A) → take n xs ++ drop n xs ≡ xs
  unfolding take drop
  take-append-drop zero xs = refl
  take-append-drop (suc n) [] = refl
  take-append-drop (suc n) (x ∷ xs) = ap (λ ys. x ∷ ys) (take-append-drop n xs)
