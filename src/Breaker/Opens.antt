-- ===== src/Breaker/Opens.antt =====
-- When the circuit breaker opens (internal/circuitbreaker/circuitbreaker.go).
use iot_edge_db.Prelude.{
  ℕ, ◌≡◌, refl, ◌<◌, ◌≤◌, ◌+◌, Bool, true, false, List, [], ◌∷◌, arith, leb, if◌then◌else◌, inl,
  inr, ◌⊎◌, subst, sym,
}
use iot_edge_db.Breaker.{
  Config, CircuitBreaker, state_closed, state_open, new, set_state, is_open, record_failure,
  record_success, record_result,
}

-- Results that are recorded one after the other: when, and whether the call failed.
unfoldable pub record_all : Config → CircuitBreaker → List (ℕ × Bool) → CircuitBreaker
unfolding record_result
record_all cfg b [] = b
record_all cfg b ((now, failed) ∷ rs) = record_all cfg (record_result cfg now failed b).breaker rs

-- The longest run of failures without a success in between, when `k` have gone before.
unfoldable pub longest_run : ℕ → List (ℕ × Bool) → ℕ
longest_run k [] = k
longest_run k ((now, true) ∷ rs) = longest_run (k + 1) rs
longest_run k ((now, false) ∷ rs) = let rest = longest_run 0 rs in if leb k rest then rest else k

longest_run-least : (k : ℕ) (rs : List (ℕ × Bool)) → k ≤ longest_run k rs
unfolding longest_run
longest_run-least k [] = omega arith
longest_run-least k ((now, true) ∷ rs) = ground (arith, longest_run-least (k + 1) rs)
longest_run-least k ((now, false) ∷ rs) = ground arith

module _ (cfg : Config) where
  record_open :
      (now : ℕ) (failed : Bool) (b : CircuitBreaker)
      → b.state ≡ state_open
      → (record_result cfg now failed b).breaker.state ≡ state_open
  unfolding record_result record_failure record_success set_state
  record_open now failed b h = ground arith

  open_stays :
      (b : CircuitBreaker) (rs : List (ℕ × Bool))
      → b.state ≡ state_open
      → (record_all cfg b rs).state ≡ state_open
  unfolding record_all
  open_stays b [] h = h
  open_stays b ((now, failed) ∷ rs) h =
      open_stays (record_result cfg now failed b).breaker rs (record_open now failed b h)

  -- A failure of a closed breaker counts, or opens it.
  failure_of_closed :
      (now : ℕ) (b : CircuitBreaker)
      → b.state ≡ state_closed
      → let r = (record_result cfg now true b).breaker in
        ((r.state ≡ state_open) × (cfg.max_failures ≤ b.failures + 1))
        ⊎ ((r.state ≡ state_closed)
            × (r.failures ≡ b.failures + 1)
            × (b.failures + 1 < cfg.max_failures))
  unfolding record_result record_failure set_state
  failure_of_closed now b h = ground arith

  success_of_closed :
      (now : ℕ) (b : CircuitBreaker)
      → b.state ≡ state_closed
      → let r = (record_result cfg now false b).breaker in
        (r.state ≡ state_closed) × (r.failures ≡ 0)
  unfolding record_result record_success set_state
  success_of_closed now b h = ground arith

  opens_from :
      (b : CircuitBreaker) (rs : List (ℕ × Bool))
      → b.state ≡ state_closed
      → b.failures < cfg.max_failures
      → is_open (record_all cfg b rs) ≡ leb cfg.max_failures (longest_run b.failures rs)
  unfolding record_all longest_run
  opens_from b [] h lt = ground arith
  opens_from b ((now, true) ∷ rs) h lt =
      let r = (record_result cfg now true b).breaker in
      elim (failure_of_closed now b h) [
        | inl (o, le) ↦ ground (arith, open_stays r rs o, longest_run-least (b.failures + 1) rs)
        | inr (c, e, lt') ↦
            ground (arith, opens_from r rs c (subst (λ n. n < cfg.max_failures) (sym e) lt'), e)
      ]
  opens_from b ((now, false) ∷ rs) h lt =
      let r = (record_result cfg now false b).breaker in
      let (c, e) = success_of_closed now b h in
      ground (arith, opens_from r rs c (subst (λ n. n < cfg.max_failures) (sym e) (omega arith)), e)

  -- When the limit is not 0, a new breaker that records results, one after the other, is open at the end
  -- if and only if as many failures as the limit came in a row, without a success in between.
  pub record_all-opens :
      (rs : List (ℕ × Bool))
      → 0 < cfg.max_failures
      → is_open (record_all cfg new rs) ≡ leb cfg.max_failures (longest_run 0 rs)
  record_all-opens rs lt = opens_from new rs refl lt
