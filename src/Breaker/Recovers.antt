-- ===== src/Breaker/Recovers.antt =====
-- The half-open state of the circuit breaker (internal/circuitbreaker/circuitbreaker.go).
use iot_edge_db.Prelude.{
  ℕ, zero, suc, ◌≡◌, refl, ◌<◌, ◌≤◌, ◌+◌, ◌-◌, ◌^◌, Bool, true, false, ◌&&◌, List, [], ◌∷◌, arith,
  ltb, leb, if◌then◌else◌, length, ap, ◌∙◌, ◌⊎◌, inl, inr,
}
use iot_edge_db.Breaker.{
  Config, CircuitBreaker, state_closed, state_open, state_half_open, set_state, allow_request,
  record_success, record_result, execute,
}

-- How many of `m` requests are let through that ask one after the other, with no result in between.
unfoldable pub admitted_count : Config → ℕ → ℕ → CircuitBreaker → ℕ
unfolding allow_request
admitted_count cfg now zero b = 0
admitted_count cfg now (suc m) b =
    let a = allow_request cfg now b.state b.last_failure_time b in
    let rest = admitted_count cfg now m a.after.breaker in if a.admitted then rest + 1 else rest

-- Calls that succeed, one after the other: whether all are let through, and the breaker at the end.
unfoldable pub succeed_all : Config → List (ℕ × ℕ) → CircuitBreaker → Bool × CircuitBreaker
unfolding execute
succeed_all cfg [] b = (true, b)
succeed_all cfg ((now, finish) ∷ calls) b =
    let a = execute cfg now finish false b in
    let rest = succeed_all cfg calls a.after.breaker in (a.admitted && rest.0, rest.1)

module _ (cfg : Config) (small : cfg.half_open_max_requests < 2 ^ 31) where
  -- A half-open breaker counts the request, and admits it up to the limit.
  allow_in_half_open :
      (now : ℕ) (b : CircuitBreaker)
      → b.state ≡ state_half_open
      → b.half_open_count + 1 < 2 ^ 31
      → let a = allow_request cfg now b.state b.last_failure_time b in
        (a.admitted ≡ leb (b.half_open_count + 1) cfg.half_open_max_requests)
        × (a.after.breaker ≡ record b { half_open_count = b.half_open_count + 1 })
  unfolding allow_request
  allow_in_half_open now b h lt = rw h (
    ground arith,
    ap (λ n. record b { state = state_half_open; half_open_count = n }) (omega arith),
  )

  admitted_in_half_open :
      (now m : ℕ) (b : CircuitBreaker)
      → b.state ≡ state_half_open
      → b.half_open_count + m < 2 ^ 31
      → admitted_count cfg now m b ≡ (
          if leb m (cfg.half_open_max_requests - b.half_open_count)
          then m
          else cfg.half_open_max_requests - b.half_open_count)
  unfolding admitted_count
  admitted_in_half_open now zero b h lt = ground arith
  admitted_in_half_open now (suc m) b h lt =
      let (e, e') = allow_in_half_open now b h (omega arith) in
      let b' : CircuitBreaker = record b { half_open_count = b.half_open_count + 1 } in
      ground
        (arith, e, ap (admitted_count cfg now m) e', admitted_in_half_open now m b' h (omega arith))

  -- An open breaker whose timeout has passed becomes half-open.
  allow_in_open :
      (now : ℕ) (b : CircuitBreaker)
      → b.state ≡ state_open
      → b.last_failure_time + cfg.timeout < now
      → let a = allow_request cfg now b.state b.last_failure_time b in
        (a.admitted ≡ true)
        × (a.after.breaker ≡ record b {
          state = state_half_open;
          failures = 0;
          successes = 0;
          half_open_count = 0;
        })
  unfolding allow_request set_state
  allow_in_open now b h lt =
      let passed : ltb (b.last_failure_time + cfg.timeout) now ≡ true = ground arith in
      rw h (rw passed (refl, refl))

  -- At most 2 ^ 31 requests ask an open breaker whose timeout has passed, one after the other at the same time,
  -- each with the state as the last one left it and with no result in between. The breaker, whose limit of
  -- half-open requests is below 2 ^ 31, admits them all up to one more than that limit, and none after that.
  pub admitted_count-bounded :
      (now m : ℕ) (b : CircuitBreaker)
      → b.state ≡ state_open
      → b.last_failure_time + cfg.timeout < now
      → m < 2 ^ 31
      → admitted_count cfg now (suc m) b
        ≡ (if leb m cfg.half_open_max_requests then m else cfg.half_open_max_requests) + 1
  unfolding admitted_count
  admitted_count-bounded now m b h passed lt =
      let (e, e') = allow_in_open now b h passed in
      let b' : CircuitBreaker = record b {
        state = state_half_open;
        failures = 0;
        successes = 0;
        half_open_count = 0;
      } in
      ground (
        arith,
        e,
        ap (admitted_count cfg now m) e',
        admitted_in_half_open now m b' refl (omega arith),
      )

  succeed_in_half_open :
      (now finish : ℕ) (b : CircuitBreaker)
      → b.state ≡ state_half_open
      → b.half_open_count < cfg.half_open_max_requests
      → let a = execute cfg now finish false b in
        (a.admitted ≡ true)
        × (a.after.breaker
            ≡ (record_success cfg (record b { half_open_count = b.half_open_count + 1 })).breaker)
  unfolding execute record_result
  succeed_in_half_open now finish b h lt =
      let (e, e') = allow_in_half_open now b h (omega arith) in
      let admitted : (allow_request cfg now b.state b.last_failure_time b).admitted ≡ true =
        ground (arith, e) in
      rw admitted (refl, ap (λ (c : CircuitBreaker). (record_success cfg c).breaker) e')

  -- A success of a half-open breaker counts, or closes it.
  success_of_half_open :
      (b : CircuitBreaker)
      → b.state ≡ state_half_open
      → let r = (record_success cfg b).breaker in
        ((r.state ≡ state_closed) × (cfg.half_open_max_requests ≤ b.successes + 1))
        ⊎ ((r.state ≡ state_half_open)
            × (r.successes ≡ b.successes + 1)
            × (r.half_open_count ≡ b.half_open_count)
            × (b.successes + 1 < cfg.half_open_max_requests))
  unfolding record_success set_state
  success_of_half_open b h = ground arith

  -- `n` more successes close the breaker, and none of these calls is turned away.
  abbrev IsRecovering : ℕ → CircuitBreaker → Type 0
  IsRecovering n b =
      ((b.state ≡ state_closed) × (n ≡ 0))
      ⊎ ((b.state ≡ state_half_open)
          × (0 < n)
          × (b.successes + n ≡ cfg.half_open_max_requests)
          × (b.half_open_count + n ≤ cfg.half_open_max_requests))

  success-IsRecovering :
      (n : ℕ) (b : CircuitBreaker)
      → b.state ≡ state_half_open
      → b.successes + suc n ≡ cfg.half_open_max_requests
      → b.half_open_count + n ≤ cfg.half_open_max_requests
      → IsRecovering n (record_success cfg b).breaker
  success-IsRecovering n b h e le = elim (success_of_half_open b h) [
    | inl (c, m) ↦ inl (c, omega arith)
    | inr (c, s, k, m) ↦ inr (c, omega arith, omega arith, omega arith)
  ]

  recovers_from :
      (calls : List (ℕ × ℕ)) (b : CircuitBreaker)
      → IsRecovering (length calls) b
      → let r = succeed_all cfg calls b in (r.0 ≡ true) × (r.1.state ≡ state_closed)
  unfolding succeed_all
  recovers_from [] b (inl (c, e)) = (refl, c)
  recovers_from [] b (inr (c, lt, e, le)) = absurd (omega arith)
  recovers_from ((now, finish) ∷ calls) b (inl (c, e)) = absurd (omega arith)
  recovers_from ((now, finish) ∷ calls) b (inr (h, lt, e, le)) =
      let (a, a') = succeed_in_half_open now finish b h (omega arith) in
      let counted : CircuitBreaker = record b { half_open_count = b.half_open_count + 1 } in
      let rest =
        recovers_from calls (record_success cfg counted).breaker
          (success-IsRecovering (length calls) counted h (omega arith) (omega arith)) in
      (
        ground (arith, a, ap (λ c. (succeed_all cfg calls c).0) a', rest.0),
        ap (λ c. (succeed_all cfg calls c).1.state) a' ∙ rest.1,
      )

  -- An open breaker whose timeout has passed recovers: as many calls as the limit of half-open
  -- requests, one after the other, are all let through, and when they succeed the breaker is
  -- closed at the end.
  pub succeed_all-recovers :
      (now finish : ℕ) (calls : List (ℕ × ℕ)) (b : CircuitBreaker)
      → b.state ≡ state_open
      → b.last_failure_time + cfg.timeout < now
      → suc (length calls) ≡ cfg.half_open_max_requests
      → let r = succeed_all cfg ((now, finish) ∷ calls) b in
        (r.0 ≡ true) × (r.1.state ≡ state_closed)
  unfolding succeed_all execute record_result
  succeed_all-recovers now finish calls b h passed e =
      let (a, a') = allow_in_open now b h passed in
      let half : CircuitBreaker = record b {
        state = state_half_open;
        failures = 0;
        successes = 0;
        half_open_count = 0;
      } in
      let rest =
        recovers_from calls (record_success cfg half).breaker
          (success-IsRecovering (length calls) half refl (omega arith) (omega arith)) in
      rw a (
        ap (λ c. (succeed_all cfg calls (record_success cfg c).breaker).0) a' ∙ rest.0,
        ap (λ c. (succeed_all cfg calls (record_success cfg c).breaker).1.state) a' ∙ rest.1,
      )
