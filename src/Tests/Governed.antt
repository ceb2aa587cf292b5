-- ===== src/Tests/Governed.antt =====
-- The theorems about the limits on queries, at concrete counters.
use iot_edge_db.Prelude.{◌≡◌, pos, refl, ◌≤◌, true, false, List, [], ◌∷◌, ℕ, arith}
use iot_edge_db.Governance.Window.{
  SlidingWindowCounter, new_sliding_window_counter, advance, next_slot, next_slots, clear,
  count_request, allow, slot, set_slot, zeros,
}
use iot_edge_db.Governance.Limits.{allow_all, spec_all, allow_all-refines, allow_all-bounded}
use iot_edge_db.Governance.Quota.{new_quota_tracker}
use iot_edge_db.GoMap.{empty, int_key}
use iot_edge_db.Governance.Manager.{
  Policy, GovernanceConfig, Manager, new_manager, check_quota, store_policy,
}
use iot_edge_db.Governance.Sync.{IsInSync}
use iot_edge_db.Governance.Enforced.{started, quota_checked, stored, Managed-IsInSync}
use iot_edge_db.Governance.Usage.{
  IsWithin, admitted_queries, all_until, new-IsWithin, admitted_queries-exact,
}

-- Three slots of a millisecond, and two requests a window.
abbrev arrivals : List ℕ
arrivals = 5000000 ∷ 5100000 ∷ 6000000 ∷ 8000000 ∷ 8100000 ∷ 8200000 ∷ []

abbrev counter : SlidingWindowCounter
counter = new_sliding_window_counter 5000000 3000000 3 2

allow_all-refines_example :
    (allow_all arrivals counter).0
    ≡ (spec_all 1000000 3 2 arrivals (record { last = 5; log = [] })).0
allow_all-refines_example = allow_all-refines 5000000 3000000 3 2 arrivals

answers : (allow_all arrivals counter).0 ≡ true ∷ true ∷ false ∷ true ∷ true ∷ false ∷ []
unfolding allow_all new_sliding_window_counter allow advance next_slots next_slot clear
    count_request slot set_slot zeros
answers = refl

allow_all-bounded_example : (allow_all arrivals counter).1.total ≤ 2
allow_all-bounded_example = allow_all-bounded 5000000 3000000 3 2 arrivals (omega arith)

new-IsWithin_example : IsWithin (admitted_queries arrivals (new_quota_tracker 5000000 4 5)).1
new-IsWithin_example = new-IsWithin 5000000 4 5 arrivals

admitted_queries-exact_example : (admitted_queries arrivals (new_quota_tracker 5000000 4 5)).0 ≡ 4
unfolding all_until
admitted_queries-exact_example =
    admitted_queries-exact arrivals (new_quota_tracker 5000000 4 5) refl refl (omega arith)
      (omega arith)

abbrev no_defaults : GovernanceConfig
no_defaults = record {
  default_rate_limit_per_min = 0;
  default_rate_limit_per_hour = 0;
  default_max_queries_per_hour = 7;
  default_max_queries_per_day = 0;
  default_max_rows_per_query = 0;
}

abbrev ten_a_minute : Policy
ten_a_minute = record {
  id = pos 1;
  token_id = pos 4;
  token_name = [];
  rate_limit_per_minute = 10;
  rate_limit_per_hour = 0;
  max_queries_per_hour = 0;
  max_queries_per_day = 50;
  max_rows_per_query = 0;
  max_scan_duration_sec = 0;
  created_at = pos 0;
  updated_at = pos 0;
}

-- A query of token 4 under the defaults, a policy for the token, and another query.
abbrev managed : Manager
managed =
    (check_quota
      (store_policy (check_quota (new_manager no_defaults empty) (pos 4) 1 2).1 ten_a_minute)
      (pos 4) 3 4).1

Managed-IsInSync_example : IsInSync managed
Managed-IsInSync_example = Managed-IsInSync no_defaults empty (
    quota_checked
      (store_policy (check_quota (new_manager no_defaults empty) (pos 4) 1 2).1 ten_a_minute)
      (pos 4) 3 4
      (stored (check_quota (new_manager no_defaults empty) (pos 4) 1 2).1 ten_a_minute
        (quota_checked (new_manager no_defaults empty) (pos 4) 1 2 started)))
