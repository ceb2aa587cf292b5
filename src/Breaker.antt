-- ===== src/Breaker.antt =====
-- The circuit breaker (internal/circuitbreaker/circuitbreaker.go). allowRequest reads the state under the read
-- lock and acts later, so what it acts on is an argument of its own. Times are in nanoseconds of the
-- monotonic clock. A negative limit acts as 0, and Timeout is not negative.
pub mod Counts
pub mod Opens
pub mod Recovers
use iot_edge_db.Prelude.{
  ℕ, ◌+◌, ◌%◌, ◌^◌, Bool, true, false, not, List, [], ◌∷◌, ◌++◌, ltb, leb, if◌then◌else◌, GoString,
  bytes,
}

pub data State : Type 0 where
  state_closed state_open state_half_open : State

abbrev pub state_name : State → GoString
state_name state_closed = bytes "closed"
state_name state_open = bytes "open"
state_name state_half_open = bytes "half-open"

pub record Config : Type 0 where
  pub max_failures : ℕ
  pub timeout : ℕ
  pub half_open_max_requests : ℕ

abbrev pub default_config : Config
default_config = record { max_failures = 5; timeout = 30000000000; half_open_max_requests = 3 }

-- `half_open_count` is the bits of the int32.
pub record CircuitBreaker : Type 0 where
  pub state : State
  pub failures : ℕ
  pub successes : ℕ
  pub last_failure_time : ℕ
  pub half_open_count : ℕ

abbrev pub new : CircuitBreaker
new = record {
  state = state_closed;
  failures = 0;
  successes = 0;
  last_failure_time = 0;
  half_open_count = 0;
}

-- The breaker after a call, and the calls of OnStateChange.
pub record Changed : Type 0 where
  pub breaker : CircuitBreaker
  pub changes : List (State × State)

abbrev pub unchanged : CircuitBreaker → Changed
unchanged b = record { breaker = b; changes = [] }

abbrev pub same_state : State → State → Bool
same_state state_closed state_closed = true
same_state state_closed state_open = false
same_state state_closed state_half_open = false
same_state state_open state_closed = false
same_state state_open state_open = true
same_state state_open state_half_open = false
same_state state_half_open state_closed = false
same_state state_half_open state_open = false
same_state state_half_open state_half_open = true

unfoldable pub set_state : CircuitBreaker → State → Changed
set_state b s = if same_state b.state s then unchanged b else record {
  breaker = record b { state = s; failures = 0; successes = 0 };
  changes = (b.state, s) ∷ [];
}

-- int32 arithmetic on bits: x + 1, and a signed x <= int32(limit)
abbrev pub next_int32 : ℕ → ℕ
next_int32 x = (x + 1) % 2 ^ 32

abbrev pub le_int32 : ℕ → ℕ → Bool
le_int32 x limit = leb ((x + 2 ^ 31) % 2 ^ 32) ((limit + 2 ^ 31) % 2 ^ 32)

-- What allowRequest answers.
pub record Allowed : Type 0 where
  pub admitted : Bool
  pub after : Changed

abbrev zero_count : Changed → Changed
zero_count r = record r { breaker = record r.breaker { half_open_count = 0 } }

-- The critical section that is entered when the timeout has passed, with its double check.
abbrev pub try_half_open : CircuitBreaker → Changed
try_half_open b =
    if same_state b.state state_open then zero_count (set_state b state_half_open) else unchanged b

-- allowRequest, after it has read the state and the time of the last failure.
unfoldable pub allow_request : Config → ℕ → State → ℕ → CircuitBreaker → Allowed
unfolding set_state
allow_request cfg now state_closed last b = record { admitted = true; after = unchanged b }
allow_request cfg now state_open last b =
    if ltb (last + cfg.timeout) now
    then record { admitted = true; after = try_half_open b }
    else record { admitted = false; after = unchanged b }
allow_request cfg now state_half_open last b =
    let count = next_int32 b.half_open_count in
    record {
      admitted = le_int32 count cfg.half_open_max_requests;
      after = unchanged (record b { half_open_count = count });
    }

abbrev pub failed_in : Config → State → CircuitBreaker → Changed
failed_in cfg state_closed b =
    if leb cfg.max_failures b.failures then set_state b state_open else unchanged b
failed_in cfg state_open b = unchanged b
failed_in cfg state_half_open b = set_state b state_open

unfoldable pub record_failure : Config → ℕ → CircuitBreaker → Changed
unfolding set_state
record_failure cfg now b =
    failed_in cfg b.state
      (record b { failures = b.failures + 1; successes = 0; last_failure_time = now })

abbrev pub succeeded_in : Config → State → CircuitBreaker → Changed
succeeded_in cfg state_closed b = unchanged (record b { failures = 0 })
succeeded_in cfg state_open b = unchanged b
succeeded_in cfg state_half_open b =
    if leb cfg.half_open_max_requests b.successes then set_state b state_closed else unchanged b

unfoldable pub record_success : Config → CircuitBreaker → Changed
unfolding set_state
record_success cfg b = succeeded_in cfg b.state (record b { successes = b.successes + 1 })

-- recordResult; `failed` says that the function returned an error.
unfoldable pub record_result : Config → ℕ → Bool → CircuitBreaker → Changed
unfolding record_failure record_success
record_result cfg now failed b = if failed then record_failure cfg now b else record_success cfg b

unfoldable pub reset : CircuitBreaker → Changed
unfolding set_state
reset b =
    let r = set_state b state_closed in
    record r { breaker = record r.breaker { failures = 0; successes = 0 } }

-- State and IsOpen
abbrev pub is_open : CircuitBreaker → Bool
is_open b = same_state b.state state_open

abbrev finished : Config → ℕ → Bool → Allowed → Allowed
finished cfg finish failed a =
    let r = record_result cfg finish failed a.after.breaker in
    record {
      admitted = true;
      after = record { breaker = r.breaker; changes = a.after.changes ++ r.changes };
    }

-- Execute with no other caller in between: it starts at `now`, and the function ends at `finish`.
-- `admitted` is false when the result is ErrCircuitOpen.
unfoldable pub execute : Config → ℕ → ℕ → Bool → CircuitBreaker → Allowed
unfolding allow_request record_result
execute cfg now finish failed b =
    let a = allow_request cfg now b.state b.last_failure_time b in
    if a.admitted then finished cfg finish failed a else a
