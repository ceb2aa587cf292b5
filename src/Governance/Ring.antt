-- ===== src/Governance/Ring.antt =====
-- The ring of slots of the sliding window, read from the current slot backwards
-- (internal/governance/sliding_window.go).
use native.Mathlib.Nat.{mod-eq_of_lt, mod_self}
use iot_edge_db.Prelude.{
  ℕ, zero, suc, ◌≡◌, refl, ap, ◌∙◌, ◌<◌, ◌+◌, ◌-◌, ◌%◌, false, List, [], ◌∷◌, arith, leb, ◌==◌,
  if◌then◌else◌, length, Bool-cases, inl, inr,
}
use iot_edge_db.Governance.Window.{
  SlidingWindowCounter, slot, set_slot, zeros, next_slot, count_request, clear,
}

slot-set_slot :
    (xs : List ℕ) (i v j : ℕ)
    → i < length xs
    → slot (set_slot xs i v) j ≡ (if i == j then v else slot xs j)
unfolding slot set_slot
slot-set_slot [] i v j lt = absurd (omega arith)
slot-set_slot (x ∷ xs) zero v zero lt = refl
slot-set_slot (x ∷ xs) zero v (suc j) lt = ground arith
slot-set_slot (x ∷ xs) (suc i) v zero lt = ground arith
slot-set_slot (x ∷ xs) (suc i) v (suc j) lt = ground (arith, slot-set_slot xs i v j)

length-set_slot : (xs : List ℕ) (i v : ℕ) → length (set_slot xs i v) ≡ length xs
unfolding set_slot
length-set_slot [] i v = refl
length-set_slot (x ∷ xs) zero v = refl
length-set_slot (x ∷ xs) (suc i) v = ap suc (length-set_slot xs i v)

pub slot-zeros : (n i : ℕ) → slot (zeros n) i ≡ 0
unfolding slot zeros
slot-zeros zero i = refl
slot-zeros (suc n) zero = refl
slot-zeros (suc n) (suc i) = slot-zeros n i

pub length-zeros : (n : ℕ) → length (zeros n) ≡ n
unfolding zeros
length-zeros zero = refl
length-zeros (suc n) = ap suc (length-zeros n)

next_index : (i n : ℕ) → i < n → (i + 1) % n ≡ (if leb n (i + 1) then 0 else i + 1)
next_index i n lt = elim (Bool-cases (leb n (i + 1))) [
  | inl t ↦ rw t (ap (λ m. m % n) (ground arith) ∙ mod_self n)
  | inr t ↦ rw t (mod-eq_of_lt (ground arith))
]

pub record IsRing (s : SlidingWindowCounter) : Type 0 where
  pub some_slot : 0 < s.slot_count
  pub sized : length s.slots ≡ s.slot_count
  pub within : s.current_slot < s.slot_count

-- The index of the slot `j` steps before the current one.
abbrev back_index : SlidingWindowCounter → ℕ → ℕ
back_index s j =
    if leb j s.current_slot then s.current_slot - j else s.current_slot + s.slot_count - j

-- The count of the slot `j` steps before the current one.
unfoldable pub back : SlidingWindowCounter → ℕ → ℕ
back s j = slot s.slots (back_index s j)

module _ (s : SlidingWindowCounter) (r : IsRing s) where
  next_slot-index :
      (next_slot s).current_slot
      ≡ (if leb s.slot_count (s.current_slot + 1) then 0 else s.current_slot + 1)
  unfolding next_slot
  next_slot-index = next_index s.current_slot s.slot_count r.within

  pub next_slot-IsRing : IsRing (next_slot s)
  unfolding next_slot
  next_slot-IsRing = record {
    some_slot = r.some_slot;
    sized = length-set_slot s.slots (next_slot s).current_slot 0 ∙ r.sized;
    within = ground (arith, next_slot-index, r.within, r.some_slot);
  }

  -- The slot that is cleared is the oldest one.
  next_slot-oldest : slot s.slots (next_slot s).current_slot ≡ back s (s.slot_count - 1)
  unfolding back
  next_slot-oldest = ap (slot s.slots) (ground (arith, next_slot-index, r.within))

  pub total-next_slot : (next_slot s).total ≡ s.total - back s (s.slot_count - 1)
  unfolding next_slot
  total-next_slot = ap (λ n. s.total - n) next_slot-oldest

  back_index-first : back_index (next_slot s) 0 ≡ (next_slot s).current_slot
  back_index-first = ground arith

  back_index-other :
      (j : ℕ)
      → suc j < s.slot_count
      → (((next_slot s).current_slot == back_index (next_slot s) (suc j)) ≡ false)
        × (back_index (next_slot s) (suc j) ≡ back_index s j)
  unfolding next_slot
  back_index-other j lt =
      (ground (arith, next_slot-index, r.within), ground (arith, next_slot-index, r.within))

  slot-next_slot :
      (i : ℕ)
      → slot (next_slot s).slots i ≡ (if (next_slot s).current_slot == i then 0 else slot s.slots i)
  unfolding next_slot
  slot-next_slot i =
      slot-set_slot s.slots (next_slot s).current_slot 0 i
        (ground (arith, next_slot-IsRing.within, r.sized))

  -- The current slot is empty, and the other counts have moved one slot back.
  pub back-next_slot-first : back (next_slot s) 0 ≡ 0
  unfolding back
  back-next_slot-first =
      ground (arith, slot-next_slot (back_index (next_slot s) 0), back_index-first)

  pub back-next_slot-other : (j : ℕ) → suc j < s.slot_count → back (next_slot s) (suc j) ≡ back s j
  unfolding back
  back-next_slot-other j lt =
      let (a, b) = back_index-other j lt in
      ground (arith, slot-next_slot (back_index (next_slot s) (suc j)), a, ap (slot s.slots) b)

  -- An admission counts in the current slot.
  pub count_request-IsRing : IsRing (count_request s)
  unfolding count_request
  count_request-IsRing = record {
    some_slot = r.some_slot;
    sized = length-set_slot s.slots s.current_slot (slot s.slots s.current_slot + 1) ∙ r.sized;
    within = r.within;
  }

  pub back-count_request :
      (j : ℕ)
      → j < s.slot_count
      → back (count_request s) j ≡ (if j == 0 then back s 0 + 1 else back s j)
  unfolding back count_request
  back-count_request j lt = ground (
    arith,
    slot-set_slot s.slots s.current_slot (slot s.slots s.current_slot + 1) (back_index s j),
    r.within,
    r.sized,
  )

  pub clear-IsRing : IsRing (clear s)
  unfolding clear
  clear-IsRing = record {
    some_slot = r.some_slot;
    sized = length-zeros s.slot_count;
    within = r.some_slot;
  }

  pub back-clear : (j : ℕ) → back (clear s) j ≡ 0
  unfolding back clear
  back-clear j = slot-zeros s.slot_count (back_index (clear s) j)
