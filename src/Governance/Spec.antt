-- ===== src/Governance/Spec.antt =====
-- The sliding window against its specification on the log of admissions
-- (internal/governance/sliding_window.go).
use native.Mathlib.Nat.{
  mul-le-mul_left, mul-lt-mul_of_pos_left, mul-div_cancel_left, mul-sub, div-add-mod,
}
use iot_edge_db.Prelude.{
  ℕ, zero, suc, ◌≡◌, refl, ap, sym, ◌∙◌, subst, ◌<◌, ◌-◌, ◌*◌, ◌/◌, Bool, true, false, not, List,
  ◌∷◌, arith, ltb, leb, if◌then◌else◌, Bool-cases, inl, inr,
}
use iot_edge_db.Governance.Window.{
  SlidingWindowCounter, is_full, truncate, next_slot, next_slots, count_request, clear, advance,
  allow,
}
use iot_edge_db.Governance.Ring.{back}
use iot_edge_db.Governance.Log.{
  in_window, Agrees, next_slots-Agrees, clear-Agrees, count_request-Agrees,
}

-- The number of the last slot, and the log.
pub record Window : Type 0 where
  pub last : ℕ
  pub log : List ℕ

-- A request is admitted when fewer than `limit` were admitted in the last `count` slots, up to that of
-- the request; a clock that goes back does not move the window.
abbrev pub last_at : ℕ → ℕ → Window → ℕ
last_at d now w = if leb (now / d) w.last then w.last else now / d

unfoldable pub admits : ℕ → ℕ → ℕ → List ℕ → Bool
unfolding in_window
admits count limit last log = if ltb 0 limit then ltb (in_window count last log) limit else true

unfoldable pub spec_allow : ℕ → ℕ → ℕ → ℕ → Window → Bool × Window
unfolding admits
spec_allow d count limit now w =
    let last = last_at d now w in
    if admits count limit last w.log
    then (true, record { last = last; log = last ∷ w.log })
    else (false, record { last = last; log = w.log })

-- The counter implements the specification's state.
pub record Implements (s : SlidingWindowCounter) (d count limit : ℕ) (w : Window) : Type 0 where
  pub agrees : Agrees s w.last w.log
  pub duration : s.slot_duration ≡ d
  pub slots : s.slot_count ≡ count
  pub limited : s.limit ≡ limit
  pub lasts : 0 < d
  pub aligned : s.last_slot_time ≡ d * w.last

pub truncate-mul : (t d : ℕ) → truncate t d ≡ d * (t / d)
truncate-mul t d = omega (arith, div-add-mod t d)

leb-mul : (d q last : ℕ) → 0 < d → leb (d * q) (d * last) ≡ leb q last
leb-mul d q last lt = elim (Bool-cases (leb q last)) [
  | inl t ↦ ground (arith, t, mul-le-mul_left {m = q} {n = last} d (ground (arith, t)))
  | inr t ↦
      ground (arith, t, mul-lt-mul_of_pos_left {m = last} {n = q} {k = d} (ground (arith, t)) lt)
]

elapsed : (d q last : ℕ) → 0 < d → (d * q - d * last) / d ≡ q - last
elapsed d q last lt = ap (λ n. n / d) (sym (mul-sub d q last)) ∙ mul-div_cancel_left (q - last) lt

-- What advance does, by its test, the number of slots that have passed and the time that it stores.
abbrev moved : Bool → ℕ → ℕ → SlidingWindowCounter → SlidingWindowCounter
moved early n time s =
    if early
    then s
    else record (if leb s.slot_count n then clear s else next_slots n s) { last_slot_time = time }

advance_lem :
    (now d last : ℕ) (s : SlidingWindowCounter)
    → 0 < d
    → s.slot_duration ≡ d
    → s.last_slot_time ≡ d * last
    → advance now s ≡ moved (leb (now / d) last) (now / d - last) (d * (now / d)) s
unfolding advance
advance_lem now d last s lt e f =
    let time : truncate now s.slot_duration ≡ d * (now / d) =
      ap (truncate now) e ∙ truncate-mul now d in
    let early : leb (truncate now s.slot_duration) s.last_slot_time ≡ leb (now / d) last =
      (λ i. leb (time i) (f i)) ∙ leb-mul d (now / d) last lt in
    let n : (truncate now s.slot_duration - s.last_slot_time) / s.slot_duration ≡ now / d - last =
      (λ i. (time i - f i) / e i) ∙ elapsed d (now / d) last lt in
    λ i. moved (early i) (n i) (time i) s

next_slots-settings :
    (n : ℕ) (s : SlidingWindowCounter)
    → ((next_slots n s).slot_duration ≡ s.slot_duration)
      × ((next_slots n s).slot_count ≡ s.slot_count)
      × ((next_slots n s).limit ≡ s.limit)
unfolding next_slots
next_slots-settings zero s = (refl, refl, refl)
next_slots-settings (suc n) s = next_slots-settings n (next_slot s)

stamped-Agrees :
    (s : SlidingWindowCounter) (time last : ℕ) (log : List ℕ)
    → Agrees s last log
    → Agrees (record s { last_slot_time = time }) last log
unfolding back
stamped-Agrees s time last log a = record {
  ring = record { some_slot = a.ring.some_slot; sized = a.ring.sized; within = a.ring.within };
  recent = a.recent;
  total = a.total;
  past = a.past;
}

module _ (d count limit : ℕ) (w : Window) (now : ℕ) where
  moved-Implements :
      (s : SlidingWindowCounter)
      → leb (now / d) w.last ≡ false
      → Implements s d count limit w
      → Implements
          (moved false (now / d - w.last) (d * (now / d)) s)
          d
          count
          limit
          (record { last = now / d; log = w.log })
  unfolding clear
  moved-Implements s later c = elim (Bool-cases (leb s.slot_count (now / d - w.last))) [
    | inl t ↦ rw t (record {
      agrees =
          stamped-Agrees (clear s) (d * (now / d)) (now / d) w.log
            (clear-Agrees s w.last w.log c.agrees (now / d) (ground (arith, t, later)));
      duration = c.duration;
      slots = c.slots;
      limited = c.limited;
      lasts = c.lasts;
      aligned = refl;
    })
    | inr t ↦
        let n = now / d - w.last in
        let (du, co, li) = next_slots-settings n s in
        rw t (record {
          agrees = stamped-Agrees (next_slots n s) (d * (now / d)) (now / d) w.log (
              subst (λ m. Agrees (next_slots n s) m w.log) (ground (arith, later))
                (next_slots-Agrees n s w.last w.log c.agrees));
          duration = du ∙ c.duration;
          slots = co ∙ c.slots;
          limited = li ∙ c.limited;
          lasts = c.lasts;
          aligned = refl;
        })
  ]

  advance-Implements :
      (s : SlidingWindowCounter)
      → Implements s d count limit w
      → Implements (advance now s) d count limit (record { last = last_at d now w; log = w.log })
  advance-Implements s c =
      subst (λ x. Implements x d count limit (record { last = last_at d now w; log = w.log }))
        (sym (advance_lem now d w.last s c.lasts c.duration c.aligned))
        (elim (Bool-cases (leb (now / d) w.last)) [
          | inl t ↦ rw t c
          | inr t ↦ rw t (moved-Implements s t c)
        ])

  is_full_lem :
      (s : SlidingWindowCounter) (last : ℕ)
      → Implements s d count limit (record { last = last; log = w.log })
      → is_full s ≡ not (admits count limit last w.log)
  unfolding admits
  is_full_lem s last c =
      let total : s.total ≡ in_window count last w.log =
        c.agrees.total ∙ ap (λ n. in_window n last w.log) c.slots in
      ground (arith, total, c.limited)

  counted-Implements :
      (s : SlidingWindowCounter) (last : ℕ)
      → Implements s d count limit (record { last = last; log = w.log })
      → Implements (count_request s) d count limit (record { last = last; log = last ∷ w.log })
  unfolding count_request
  counted-Implements s last c = record {
    agrees = count_request-Agrees s last w.log c.agrees;
    duration = c.duration;
    slots = c.slots;
    limited = c.limited;
    lasts = c.lasts;
    aligned = c.aligned;
  }

  -- One call of Allow answers as the specification does on the log of admissions, and goes on
  -- implementing it: a request is admitted exactly when the limit is 0 or fewer than the
  -- limit were admitted in the last slots of the window.
  pub allow-Implements :
      (s : SlidingWindowCounter)
      → Implements s d count limit w
      → ((allow now s).0 ≡ (spec_allow d count limit now w).0)
        × Implements (allow now s).1 d count limit (spec_allow d count limit now w).1
  unfolding allow spec_allow
  allow-Implements s c =
      let last = last_at d now w in
      let c' = advance-Implements s c in
      let full : is_full (advance now s) ≡ not (admits count limit last w.log) =
        is_full_lem (advance now s) last c' in
      elim (Bool-cases (admits count limit last w.log)) [
        | inl t ↦ rw full (rw t (refl, counted-Implements (advance now s) last c'))
        | inr t ↦ rw full (rw t (refl, c'))
      ]
