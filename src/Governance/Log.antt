-- ===== src/Governance/Log.antt =====
-- What the sliding window promises, stated on a log of the admitted requests: the number of the slot of
-- each, counted from the zero time (internal/governance/sliding_window.go).
use iot_edge_db.Prelude.{
  ℕ, zero, suc, ◌≡◌, refl, sym, ◌∙◌, subst, ◌≤◌, ◌<◌, ◌+◌, ◌-◌, Bool, true, ◌&&◌, List, [], ◌∷◌,
  arith, ltb, leb, ◌==◌, if◌then◌else◌,
}
use iot_edge_db.Governance.Window.{
  SlidingWindowCounter, next_slot, next_slots, count_request, clear,
}
use iot_edge_db.Governance.Ring.{
  IsRing, back, next_slot-IsRing, total-next_slot, back-next_slot-first, back-next_slot-other,
  count_request-IsRing, back-count_request, clear-IsRing, back-clear,
}

-- How many were admitted in the slot `j` before `last`.
unfoldable pub slots_ago : ℕ → ℕ → List ℕ → ℕ
slots_ago j last [] = 0
slots_ago j last (e ∷ log) =
    let rest = slots_ago j last log in if e + j == last then rest + 1 else rest

-- How many were admitted in the `count` slots up to `last`.
unfoldable pub in_window : ℕ → ℕ → List ℕ → ℕ
in_window count last [] = 0
in_window count last (e ∷ log) =
    let rest = in_window count last log in if ltb last (e + count) then rest + 1 else rest

unfoldable pub none_after : ℕ → List ℕ → Bool
none_after last [] = true
none_after last (e ∷ log) = let rest = none_after last log in leb e last && rest

in_window-next :
    (count last : ℕ) (log : List ℕ)
    → 0 < count
    → in_window count last log ≡ in_window count (suc last) log + slots_ago (count - 1) last log
unfolding in_window slots_ago
in_window-next count last [] lt = ground arith
in_window-next count last (e ∷ log) lt = ground (arith, in_window-next count last log lt)

slots_ago-next :
    (j last : ℕ) (log : List ℕ) → slots_ago (suc j) (suc last) log ≡ slots_ago j last log
unfolding slots_ago
slots_ago-next j last [] = refl
slots_ago-next j last (e ∷ log) = ground (arith, slots_ago-next j last log)

slots_ago-future :
    (j last n : ℕ) (log : List ℕ)
    → none_after last log ≡ true
    → last + j < n
    → slots_ago j n log ≡ 0
unfolding slots_ago none_after
slots_ago-future j last n [] h lt = refl
slots_ago-future j last n (e ∷ log) h lt = ground (arith, slots_ago-future j last n log)

in_window-past :
    (count last n : ℕ) (log : List ℕ)
    → none_after last log ≡ true
    → last + count ≤ n
    → in_window count n log ≡ 0
unfolding in_window none_after
in_window-past count last n [] h le = refl
in_window-past count last n (e ∷ log) h le = ground (arith, in_window-past count last n log)

none_after-later :
    (last n : ℕ) (log : List ℕ) → none_after last log ≡ true → last ≤ n → none_after n log ≡ true
unfolding none_after
none_after-later last n [] h le = refl
none_after-later last n (e ∷ log) h le = ground (arith, none_after-later last n log)

-- The counter agrees with the log at the slot `last`.
pub record Agrees (s : SlidingWindowCounter) (last : ℕ) (log : List ℕ) : Type 0 where
  pub ring : IsRing s
  pub recent : (j : ℕ) → j < s.slot_count → back s j ≡ slots_ago j last log
  pub total : s.total ≡ in_window s.slot_count last log
  pub past : none_after last log ≡ true

module _ (s : SlidingWindowCounter) (last : ℕ) (log : List ℕ) (a : Agrees s last log) where
  recent-next_slot : (j : ℕ) → j < s.slot_count → back (next_slot s) j ≡ slots_ago j (suc last) log
  recent-next_slot zero lt =
      ground (arith, back-next_slot-first s a.ring, slots_ago-future 0 last (suc last) log a.past)
  recent-next_slot (suc j) lt =
      back-next_slot-other s a.ring j lt
      ∙ a.recent j (omega arith)
      ∙ sym (slots_ago-next j last log)

  next_slot-Agrees : Agrees (next_slot s) (suc last) log
  unfolding next_slot
  next_slot-Agrees = record {
    ring = next_slot-IsRing s a.ring;
    recent = recent-next_slot;
    total = ground (
      arith,
      total-next_slot s a.ring,
      a.recent (s.slot_count - 1) (ground (arith, a.ring.some_slot)),
      in_window-next s.slot_count last log a.ring.some_slot,
      a.total,
    );
    past = none_after-later last (suc last) log a.past (omega arith);
  }

  pub clear-Agrees : (n : ℕ) → last + s.slot_count ≤ n → Agrees (clear s) n log
  unfolding clear
  clear-Agrees n le = record {
    ring = clear-IsRing s a.ring;
    recent =
        λ j lt. back-clear s a.ring j ∙ sym (slots_ago-future j last n log a.past (omega arith));
    total = sym (in_window-past s.slot_count last n log a.past le);
    past = none_after-later last n log a.past (omega arith);
  }

  pub count_request-Agrees : Agrees (count_request s) last (last ∷ log)
  unfolding count_request slots_ago in_window none_after
  count_request-Agrees = record {
    ring = count_request-IsRing s a.ring;
    recent = λ j lt.
        ground
          (arith, back-count_request s a.ring j lt, a.recent j lt, a.recent 0 a.ring.some_slot);
    total = ground (arith, a.total, a.ring.some_slot);
    past = ground (arith, a.past);
  }

pub next_slots-Agrees :
    (n : ℕ) (s : SlidingWindowCounter) (last : ℕ) (log : List ℕ)
    → Agrees s last log
    → Agrees (next_slots n s) (last + n) log
unfolding next_slots
next_slots-Agrees zero s last log a = subst (λ m. Agrees s m log) (omega arith) a
next_slots-Agrees (suc n) s last log a =
    subst (λ m. Agrees (next_slots n (next_slot s)) m log) (omega arith)
      (next_slots-Agrees n (next_slot s) (suc last) log (next_slot-Agrees s last log a))
