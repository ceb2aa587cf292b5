-- ===== src/Tests/Breakers.antt =====
-- The theorems about the circuit breaker, at concrete breakers.
use iot_edge_db.Prelude.{◌≡◌, Bool, refl, true, false, List, [], ◌∷◌, ℕ, arith, leb}
use iot_edge_db.Breaker.{
  CircuitBreaker, state_closed, state_open, new, default_config, set_state, allow_request,
  record_failure, record_success, record_result, is_open,
}
use iot_edge_db.Breaker.Counts.{Reached, start, recording, allowing, IsBounded, Reached-IsBounded}
use iot_edge_db.Breaker.Opens.{record_all, longest_run, record_all-opens}
use iot_edge_db.Breaker.Recovers.{
  admitted_count, succeed_all, admitted_count-bounded, succeed_all-recovers,
}

-- Four failures, a success, and five failures.
abbrev results : List (ℕ × Bool)
results =
    (1, true)
    ∷ (2, true)
    ∷ (3, true)
    ∷ (4, true)
    ∷ (5, false)
    ∷ (6, true)
    ∷ (7, true)
    ∷ (8, true)
    ∷ (9, true)
    ∷ (10, true)
    ∷ []

opened : CircuitBreaker
unfolding record_all record_failure record_success set_state
opened = record_all default_config new results

opened_state : opened.state ≡ state_open
unfolding opened
opened_state = refl

record_all-opens_example :
    is_open (record_all default_config new results)
    ≡ leb default_config.max_failures (longest_run 0 results)
record_all-opens_example = record_all-opens default_config results (omega arith)

failed_once :
    Reached default_config
      (allow_request default_config 9 state_closed 0
        (record_result default_config 5 true new).breaker).after.breaker
failed_once =
    allowing 9 state_closed 0 (record_result default_config 5 true new).breaker
      (recording 5 true new start)

Reached-IsBounded_example :
    IsBounded default_config
      (allow_request default_config 9 state_closed 0
        (record_result default_config 5 true new).breaker).after.breaker
Reached-IsBounded_example = Reached-IsBounded default_config failed_once

-- Four of ten requests are let through.
admitted_count-bounded_example : admitted_count default_config 30000000011 10 opened ≡ 4
unfolding opened
admitted_count-bounded_example =
    admitted_count-bounded default_config (omega arith) 30000000011 9 opened refl (omega arith)
      (omega arith)

succeed_all-recovers_example :
    let r =
      succeed_all default_config
        ((30000000011, 30000000012) ∷ (30000000013, 30000000014) ∷ (30000000015, 30000000016) ∷ [])
        opened in
    (r.0 ≡ true) × (r.1.state ≡ state_closed)
unfolding opened
succeed_all-recovers_example =
    succeed_all-recovers default_config (omega arith) 30000000011 30000000012
      ((30000000013, 30000000014) ∷ (30000000015, 30000000016) ∷ []) opened refl (omega arith) refl
