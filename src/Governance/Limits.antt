-- ===== src/Governance/Limits.antt =====
-- The sliding window over any list of calls of Allow (internal/governance/sliding_window.go).
use iot_edge_db.Prelude.{
  ℕ, zero, suc, ◌≡◌, refl, ◌≤◌, ◌<◌, ◌-◌, ◌/◌, Bool, List, [], ◌∷◌, arith, leb, Bool-cases, inl,
  inr,
}
use iot_edge_db.Governance.Window.{
  SlidingWindowCounter, is_full, truncate, or_sixty, at_least_millisecond,
  new_sliding_window_counter, next_slot, next_slots, count_request, clear, advance, allow,
}
use iot_edge_db.Governance.Ring.{back, length-zeros, slot-zeros}
use iot_edge_db.Governance.Log.{slots_ago, in_window, none_after}
use iot_edge_db.Governance.Spec.{Window, spec_allow, Implements, allow-Implements, truncate-mul}

-- The answers to requests that come at these times.
unfoldable pub allow_all : List ℕ → SlidingWindowCounter → List Bool × SlidingWindowCounter
allow_all [] s = ([], s)
allow_all (now ∷ times) s =
    let (answer, s') = allow now s in
    let (answers, s'') = allow_all times s' in (answer ∷ answers, s'')

unfoldable pub spec_all : ℕ → ℕ → ℕ → List ℕ → Window → List Bool × Window
unfolding spec_allow
spec_all d count limit [] w = ([], w)
spec_all d count limit (now ∷ times) w =
    let (answer, w') = spec_allow d count limit now w in
    let (answers, w'') = spec_all d count limit times w' in (answer ∷ answers, w'')

allow_all-Implements :
    (d count limit : ℕ) (times : List ℕ) (s : SlidingWindowCounter) (w : Window)
    → Implements s d count limit w
    → (allow_all times s).0 ≡ (spec_all d count limit times w).0
unfolding allow_all spec_all
allow_all-Implements d count limit [] s w c = refl
allow_all-Implements d count limit (now ∷ times) s w c =
    let (e, c') = allow-Implements d count limit w now s c in
    λ i.
      e i
      ∷ allow_all-Implements d count limit times (allow now s).1 (spec_allow d count limit now w).1
          c' i

new-Implements :
    (now size n limit : ℕ)
    → let count = or_sixty n in
      let d = at_least_millisecond (size / count) in
      Implements
        (new_sliding_window_counter now size n limit)
        d
        count
        limit
        (record { last = now / d; log = [] })
unfolding new_sliding_window_counter back slots_ago in_window none_after
new-Implements now size n limit =
    let count = or_sixty n in
    let d = at_least_millisecond (size / count) in
    record {
      agrees = record {
        ring = record {
          some_slot = ground arith;
          sized = length-zeros count;
          within = ground arith;
        };
        recent = λ j lt. slot-zeros count _;
        total = refl;
        past = refl;
      };
      duration = refl;
      slots = refl;
      limited = refl;
      lasts = ground arith;
      aligned = truncate-mul now d;
    }

-- From a new counter, the answers to any requests, whenever they come, are those of the specification on
-- the log of admissions: a request is admitted exactly when there is no limit, or fewer
-- requests than the limit were admitted in the slots of the window that ends with its slot.
pub allow_all-refines :
    (now size n limit : ℕ) (times : List ℕ)
    → let count = or_sixty n in
      let d = at_least_millisecond (size / count) in
      (allow_all times (new_sliding_window_counter now size n limit)).0
      ≡ (spec_all d count limit times (record { last = now / d; log = [] })).0
allow_all-refines now size n limit times =
    let count = or_sixty n in
    let d = at_least_millisecond (size / count) in
    allow_all-Implements d count limit times (new_sliding_window_counter now size n limit)
      (record { last = now / d; log = [] }) (new-Implements now size n limit)

total_of_next_slots : (n : ℕ) (s : SlidingWindowCounter) → (next_slots n s).total ≤ s.total
unfolding next_slots next_slot
total_of_next_slots zero s = omega arith
total_of_next_slots (suc n) s = ground (arith, total_of_next_slots n (next_slot s))

next_slots-limit : (n : ℕ) (s : SlidingWindowCounter) → (next_slots n s).limit ≡ s.limit
unfolding next_slots next_slot
next_slots-limit zero s = refl
next_slots-limit (suc n) s = next_slots-limit n (next_slot s)

pub total_of_advance :
    (now : ℕ) (s : SlidingWindowCounter)
    → ((advance now s).total ≤ s.total) × ((advance now s).limit ≡ s.limit)
unfolding advance clear
total_of_advance now s =
    let time = truncate now s.slot_duration in
    let n = (time - s.last_slot_time) / s.slot_duration in
    elim (Bool-cases (leb time s.last_slot_time)) [
      | inl t ↦ rw t (omega arith, refl)
      | inr t ↦ rw t (elim (Bool-cases (leb s.slot_count n)) [
        | inl u ↦ rw u (omega arith, refl)
        | inr u ↦ rw u (total_of_next_slots n s, next_slots-limit n s)
      ])
    ]

total_of_allow :
    (now : ℕ) (s : SlidingWindowCounter)
    → 0 < s.limit
    → s.total ≤ s.limit
    → ((allow now s).1.total ≤ s.limit) × ((allow now s).1.limit ≡ s.limit)
unfolding allow count_request
total_of_allow now s lt le =
    let (a, b) = total_of_advance now s in
    elim (Bool-cases (is_full (advance now s))) [
      | inl t ↦ rw t (omega (arith, a), b)
      | inr t ↦ rw t (ground (arith, a, b, t), b)
    ]

total_of_allow_all :
    (times : List ℕ) (s : SlidingWindowCounter)
    → 0 < s.limit
    → s.total ≤ s.limit
    → (allow_all times s).1.total ≤ s.limit
unfolding allow_all
total_of_allow_all [] s lt le = le
total_of_allow_all (now ∷ times) s lt le =
    let (a, b) = total_of_allow now s lt le in
    let rest = total_of_allow_all times (allow now s).1 (omega (arith, b)) (omega (arith, b)) in
    omega (arith, rest, b)

-- A new counter with a limit never counts more than the limit, whatever requests come and whenever.
pub allow_all-bounded :
    (now size n limit : ℕ) (times : List ℕ)
    → 0 < limit
    → (allow_all times (new_sliding_window_counter now size n limit)).1.total ≤ limit
unfolding new_sliding_window_counter
allow_all-bounded now size n limit times lt =
    total_of_allow_all times (new_sliding_window_counter now size n limit) lt (omega arith)
