-- ===== src/Governance/Window.antt =====
-- The sliding window counter (internal/governance/sliding_window.go). Times are in nanoseconds from the zero
-- time. A limit that is not positive is no limit, as 0 is.
use iot_edge_db.Prelude.{
  ℕ, zero, suc, ◌+◌, ◌-◌, ◌/◌, ◌%◌, Bool, true, false, ◌&&◌, List, [], ◌∷◌, ltb, leb, if◌then◌else◌,
}

-- t.Truncate(d)
abbrev pub truncate : ℕ → ℕ → ℕ
truncate t d = t - t % d

pub record SlidingWindowCounter : Type 0 where
  pub window_size : ℕ
  pub slot_duration : ℕ
  pub slots : List ℕ
  pub slot_count : ℕ
  pub current_slot : ℕ
  pub last_slot_time : ℕ
  pub total : ℕ
  pub limit : ℕ

-- make([]int, n)
unfoldable pub zeros : ℕ → List ℕ
zeros zero = []
zeros (suc n) = 0 ∷ zeros n

-- s.slots[i], for an index in range
unfoldable pub slot : List ℕ → ℕ → ℕ
slot [] i = 0
slot (x ∷ xs) zero = x
slot (x ∷ xs) (suc i) = slot xs i

-- s.slots[i] = v
unfoldable pub set_slot : List ℕ → ℕ → ℕ → List ℕ
set_slot [] i v = []
set_slot (x ∷ xs) zero v = v ∷ xs
set_slot (x ∷ xs) (suc i) v = x ∷ set_slot xs i v

abbrev millisecond : ℕ
millisecond = 1000000

abbrev pub at_least_millisecond : ℕ → ℕ
at_least_millisecond d = if ltb d millisecond then millisecond else d

abbrev pub or_sixty : ℕ → ℕ
or_sixty n = if ltb 0 n then n else 60

-- A slot count that is not positive is given as 0.
unfoldable pub new_sliding_window_counter : ℕ → ℕ → ℕ → ℕ → SlidingWindowCounter
unfolding zeros
new_sliding_window_counter now window_size slot_count limit =
    let count = or_sixty slot_count in
    let d = at_least_millisecond (window_size / count) in
    record {
      window_size = window_size;
      slot_duration = d;
      slots = zeros count;
      slot_count = count;
      current_slot = 0;
      last_slot_time = truncate now d;
      total = 0;
      limit = limit;
    }

-- One round of the loop of advance.
unfoldable pub next_slot : SlidingWindowCounter → SlidingWindowCounter
unfolding slot set_slot
next_slot s =
    let current = (s.current_slot + 1) % s.slot_count in
    record s {
      current_slot = current;
      total = s.total - slot s.slots current;
      slots = set_slot s.slots current 0;
    }

unfoldable pub next_slots : ℕ → SlidingWindowCounter → SlidingWindowCounter
unfolding next_slot
next_slots zero s = s
next_slots (suc n) s = next_slots n (next_slot s)

-- The whole window has passed.
unfoldable pub clear : SlidingWindowCounter → SlidingWindowCounter
unfolding zeros
clear s = record s { slots = zeros s.slot_count; total = 0; current_slot = 0 }

unfoldable pub advance : ℕ → SlidingWindowCounter → SlidingWindowCounter
unfolding next_slots clear
advance time s =
    let now = truncate time s.slot_duration in
    let n = (now - s.last_slot_time) / s.slot_duration in
    if leb now s.last_slot_time
    then s
    else record (if leb s.slot_count n then clear s else next_slots n s) { last_slot_time = now }

-- The increments of Allow.
unfoldable pub count_request : SlidingWindowCounter → SlidingWindowCounter
unfolding slot set_slot
count_request s = record s {
  slots = set_slot s.slots s.current_slot (slot s.slots s.current_slot + 1);
  total = s.total + 1;
}

-- s.limit > 0 && s.total >= s.limit
abbrev pub is_full : SlidingWindowCounter → Bool
is_full s = ltb 0 s.limit && leb s.limit s.total

-- The answer of Allow, and the counter after it.
unfoldable pub allow : ℕ → SlidingWindowCounter → Bool × SlidingWindowCounter
unfolding advance count_request
allow now s = let s' = advance now s in if is_full s' then (false, s') else (true, count_request s')

unfoldable pub remaining : ℕ → SlidingWindowCounter → ℕ × SlidingWindowCounter
unfolding advance
remaining now s = let s' = advance now s in (s'.limit - s'.total, s')

abbrev second : ℕ
second = 1000000000

-- The oldest slot expires one slot duration after the last slot began. `later` is the second reading of the
-- clock, in time.Since, which may be before the last slot.
abbrev pub retry_in : ℕ → SlidingWindowCounter → ℕ
retry_in later s =
    let expiry = s.last_slot_time + s.slot_duration in
    if leb expiry later then s.slot_duration else expiry - later

unfoldable pub retry_after_sec : ℕ → ℕ → SlidingWindowCounter → ℕ × SlidingWindowCounter
unfolding advance
retry_after_sec now later s =
    let s' = advance now s in if is_full s' then (retry_in later s' / second + 1, s') else (0, s')

abbrev pub update_limit : ℕ → SlidingWindowCounter → SlidingWindowCounter
update_limit limit s = record s { limit = limit }
