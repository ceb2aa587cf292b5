-- ===== src/Breaker/Counts.antt =====
-- The counters of the circuit breaker over any interleaving of its callers
-- (internal/circuitbreaker/circuitbreaker.go).
use iot_edge_db.Prelude.{ℕ, ◌≡◌, refl, ◌⊎◌, inl, ◌<◌, ◌^◌, Bool, arith}
use iot_edge_db.Breaker.{
  Config, CircuitBreaker, State, state_closed, state_open, state_half_open, new, set_state,
  allow_request, record_failure, record_success, record_result, reset,
}

-- The breaker after some calls: what a caller of allowRequest has read may be out of date, so it is any state
-- and any time.
pub data Reached (cfg : Config) : CircuitBreaker → Type 0 where
  start : Reached cfg new
  allowing :
      (now : ℕ) (seen : State) (last : ℕ) (b : CircuitBreaker)
      → Reached cfg b
      → Reached cfg (allow_request cfg now seen last b).after.breaker
  recording :
      (now : ℕ) (failed : Bool) (b : CircuitBreaker)
      → Reached cfg b
      → Reached cfg (record_result cfg now failed b).breaker
  resetting : (b : CircuitBreaker) → Reached cfg b → Reached cfg (reset b).breaker

-- A closed breaker has fewer failures than it takes to open, a half-open one has no failure and fewer
-- successes than it takes to close, and the counter of half-open requests is an int32.
pub record IsBounded (cfg : Config) (b : CircuitBreaker) : Type 0 where
  pub closed : b.state ≡ state_closed → (b.failures ≡ 0) ⊎ (b.failures < cfg.max_failures)
  pub no_failure : b.state ≡ state_half_open → b.failures ≡ 0
  pub half_open :
      b.state ≡ state_half_open → (b.successes ≡ 0) ⊎ (b.successes < cfg.half_open_max_requests)
  pub counted : b.half_open_count < 2 ^ 32

module _ (cfg : Config) where
  new-IsBounded : IsBounded cfg new
  new-IsBounded = record {
    closed = λ e. inl refl;
    no_failure = λ e. refl;
    half_open = λ e. inl refl;
    counted = omega arith;
  }

  allow-IsBounded :
      (now : ℕ) (seen : State) (last : ℕ) (b : CircuitBreaker)
      → IsBounded cfg b
      → IsBounded cfg (allow_request cfg now seen last b).after.breaker
  unfolding allow_request set_state
  allow-IsBounded now state_closed last b c = c
  allow-IsBounded now state_open last b c = record {
    closed = λ e. ground (arith, c.closed);
    no_failure = λ e. ground (arith, c.no_failure);
    half_open = λ e. ground (arith, c.half_open);
    counted = ground (arith, c.counted);
  }
  allow-IsBounded now state_half_open last b c = record {
    closed = c.closed;
    no_failure = c.no_failure;
    half_open = c.half_open;
    counted = omega arith;
  }

  record-IsBounded :
      (now : ℕ) (failed : Bool) (b : CircuitBreaker)
      → IsBounded cfg b
      → IsBounded cfg (record_result cfg now failed b).breaker
  unfolding record_result record_failure record_success set_state
  record-IsBounded now failed b c = record {
    closed = λ e. ground (arith, c.closed);
    no_failure = λ e. ground (arith, c.no_failure);
    half_open = λ e. ground (arith, c.half_open);
    counted = ground (arith, c.counted);
  }

  reset-IsBounded : (b : CircuitBreaker) → IsBounded cfg b → IsBounded cfg (reset b).breaker
  unfolding reset set_state
  reset-IsBounded b c = record {
    closed = λ e. inl refl;
    no_failure = λ e. refl;
    half_open = λ e. ground arith;
    counted = ground (arith, c.counted);
  }

  -- However its callers interleave, a breaker that accepts calls has fewer failures in a row than it takes
  -- to open, and one that tests the service has seen no failure and fewer successes than it takes
  -- to close.
  pub Reached-IsBounded : {b : CircuitBreaker} → Reached cfg b → IsBounded cfg b
  Reached-IsBounded start = new-IsBounded
  Reached-IsBounded (allowing now seen last b r) =
      allow-IsBounded now seen last b (Reached-IsBounded r)
  Reached-IsBounded (recording now failed b r) = record-IsBounded now failed b (Reached-IsBounded r)
  Reached-IsBounded (resetting b r) = reset-IsBounded b (Reached-IsBounded r)
