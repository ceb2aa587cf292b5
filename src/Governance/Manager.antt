-- ===== src/Governance/Manager.antt =====
-- The manager of the limits of each token (internal/governance/manager.go). SQLite is left out: the operations
-- on policies are what follows a statement that succeeds. An operation is given its readings of
-- the clock. A limit that is not positive is given as 0.
use iot_edge_db.Prelude.{
  ℕ, ◌*◌, Bool, true, false, ◌&&◌, ◌||◌, ◌==◌, Option, none, some, ltb, if◌then◌else◌, GoString, ℤ,
  pos, [],
}
use iot_edge_db.GoMap.{Map, get, put, remove, empty, int_key}
use iot_edge_db.Types.{Time}
use iot_edge_db.Governance.Window.{
  SlidingWindowCounter, new_sliding_window_counter, allow, remaining, retry_after_sec, update_limit,
}
use iot_edge_db.Governance.Quota.{
  QuotaTracker, Denial, new_quota_tracker, next_boundary, hour, day, allow_query, get_usage,
  update_limits,
}

pub record Policy : Type 0 where
  pub id : ℤ
  pub token_id : ℤ
  pub token_name : GoString
  pub rate_limit_per_minute : ℕ
  pub rate_limit_per_hour : ℕ
  pub max_queries_per_hour : ℕ
  pub max_queries_per_day : ℕ
  pub max_rows_per_query : ℕ
  pub max_scan_duration_sec : ℕ
  pub created_at : Time
  pub updated_at : Time

-- config.GovernanceConfig
pub record GovernanceConfig : Type 0 where
  pub default_rate_limit_per_min : ℕ
  pub default_rate_limit_per_hour : ℕ
  pub default_max_queries_per_hour : ℕ
  pub default_max_queries_per_day : ℕ
  pub default_max_rows_per_query : ℕ

pub record Manager : Type 0 where
  pub config : GovernanceConfig
  pub minute_limiters : Map ℤ SlidingWindowCounter
  pub hour_limiters : Map ℤ SlidingWindowCounter
  pub quota_trackers : Map ℤ QuotaTracker
  pub policies : Map ℤ Policy

-- A manager with the policies that are loaded.
abbrev pub new_manager : GovernanceConfig → Map ℤ Policy → Manager
new_manager config policies = record {
  config = config;
  minute_limiters = empty;
  hour_limiters = empty;
  quota_trackers = empty;
  policies = policies;
}

pub data Reason : Type 0 where
  per_minute_exceeded per_hour_exceeded : ℕ → Reason
  quota_exceeded : Denial → Reason

pub record EnforcementResult : Type 0 where
  pub allowed : Bool
  pub reason : Option Reason
  pub retry_after_sec : ℕ
  pub max_rows : ℕ
  pub max_duration : ℕ

abbrev pub allowed_result : EnforcementResult
allowed_result = record {
  allowed = true;
  reason = none;
  retry_after_sec = 0;
  max_rows = 0;
  max_duration = 0;
}

abbrev refused_result : Reason → ℕ → EnforcementResult
refused_result reason seconds = record {
  allowed = false;
  reason = some reason;
  retry_after_sec = seconds;
  max_rows = 0;
  max_duration = 0;
}

abbrev pub default_policy : ℤ → GovernanceConfig → Option Policy
default_policy token cfg =
    if cfg.default_rate_limit_per_min == 0
      && cfg.default_rate_limit_per_hour == 0
      && cfg.default_max_queries_per_hour == 0
      && cfg.default_max_queries_per_day == 0
      && cfg.default_max_rows_per_query == 0
    then none
    else some (record {
      id = pos 0;
      token_id = token;
      token_name = [];
      rate_limit_per_minute = cfg.default_rate_limit_per_min;
      rate_limit_per_hour = cfg.default_rate_limit_per_hour;
      max_queries_per_hour = cfg.default_max_queries_per_hour;
      max_queries_per_day = cfg.default_max_queries_per_day;
      max_rows_per_query = cfg.default_max_rows_per_query;
      max_scan_duration_sec = 0;
      created_at = pos 0;
      updated_at = pos 0;
    })

abbrev pub or_default : ℤ → GovernanceConfig → Option Policy → Option Policy
or_default token cfg none = default_policy token cfg
or_default token cfg (some p) = some p

unfoldable pub get_effective_policy : Manager → ℤ → Option Policy
get_effective_policy m token = or_default token m.config (get m.policies token)

-- The readings of the clock: when the counter is made, in the call of Allow, and twice in the call of
-- RetryAfterSec.
pub record Clock : Type 0 where
  pub made : ℕ
  pub asked : ℕ
  pub retried : ℕ
  pub since : ℕ

abbrev pub minute : ℕ
minute = 60000000000

-- getOrCreateMinuteLimiter and getOrCreateHourLimiter
abbrev pub get_or_create_limiter : Option SlidingWindowCounter → ℕ → ℕ → ℕ → SlidingWindowCounter
get_or_create_limiter (some s) now size limit = s
get_or_create_limiter none now size limit = new_sliding_window_counter now size 60 limit

-- One of the two checks of CheckRateLimit: the seconds to wait where it refuses, and the counter after it.
unfoldable pub check_limiter :
    Option SlidingWindowCounter → Clock → ℕ → ℕ → Option ℕ × SlidingWindowCounter
unfolding allow retry_after_sec new_sliding_window_counter
check_limiter o clock size limit =
    let (admitted, s) = allow clock.asked (get_or_create_limiter o clock.made size limit) in
    let (seconds, s') = retry_after_sec clock.retried clock.since s in
    if admitted then (none, s) else (some seconds, s')

abbrev store_minute : Manager → ℤ → Option ℕ × SlidingWindowCounter → Option ℕ × Manager
store_minute m token r = (r.0, record m { minute_limiters = put m.minute_limiters token r.1 })

abbrev pub check_minute : Manager → ℤ → Clock → Policy → Option ℕ × Manager
check_minute m token clock p =
    if ltb 0 p.rate_limit_per_minute
    then store_minute m token
        (check_limiter (get m.minute_limiters token) clock minute p.rate_limit_per_minute)
    else (none, m)

abbrev store_hour : Manager → ℤ → Option ℕ × SlidingWindowCounter → Option ℕ × Manager
store_hour m token r = (r.0, record m { hour_limiters = put m.hour_limiters token r.1 })

abbrev pub check_hour : Manager → ℤ → Clock → Policy → Option ℕ × Manager
check_hour m token clock p =
    if ltb 0 p.rate_limit_per_hour
    then store_hour m token
        (check_limiter (get m.hour_limiters token) clock hour p.rate_limit_per_hour)
    else (none, m)

abbrev pub after_hour : Policy → Option ℕ × Manager → EnforcementResult × Manager
after_hour p (some seconds, m) =
    (refused_result (per_hour_exceeded p.rate_limit_per_hour) seconds, m)
after_hour p (none, m) = (allowed_result, m)

abbrev pub after_minute : ℤ → Clock → Policy → Option ℕ × Manager → EnforcementResult × Manager
after_minute token clock p (some seconds, m) =
    (refused_result (per_minute_exceeded p.rate_limit_per_minute) seconds, m)
after_minute token clock p (none, m) = after_hour p (check_hour m token clock p)

abbrev pub check_rate_limit_of :
    Manager → ℤ → Clock → Clock → Option Policy → EnforcementResult × Manager
check_rate_limit_of m token first second none = (allowed_result, m)
check_rate_limit_of m token first second (some p) =
    after_minute token second p (check_minute m token first p)

-- CheckRateLimit, with the readings of the clock for the minute and for the hour.
unfoldable pub check_rate_limit : Manager → ℤ → Clock → Clock → EnforcementResult × Manager
unfolding check_limiter get_effective_policy
check_rate_limit m token first second =
    check_rate_limit_of m token first second (get_effective_policy m token)

-- getOrCreateQuotaTracker
abbrev pub get_or_create_tracker : Option QuotaTracker → ℕ → Policy → QuotaTracker
get_or_create_tracker (some q) now p = q
get_or_create_tracker none now p =
    new_quota_tracker now p.max_queries_per_hour p.max_queries_per_day

abbrev store_tracker : Manager → ℤ → Option Denial × QuotaTracker → Option Denial × Manager
store_tracker m token r = (r.0, record m { quota_trackers = put m.quota_trackers token r.1 })

abbrev pub check_tracker : Manager → ℤ → ℕ → ℕ → Policy → Option Denial × Manager
check_tracker m token made asked p =
    if ltb 0 p.max_queries_per_hour || ltb 0 p.max_queries_per_day
    then store_tracker m token
        (allow_query asked (get_or_create_tracker (get m.quota_trackers token) made p))
    else (none, m)

abbrev pub after_tracker : Policy → Option Denial × Manager → EnforcementResult × Manager
after_tracker p (some d, m) = (refused_result (quota_exceeded d) 0, m)
after_tracker p (none, m) = (
  record allowed_result {
    max_rows = p.max_rows_per_query;
    max_duration = p.max_scan_duration_sec * 1000000000;
  },
  m,
)

abbrev pub check_quota_of : Manager → ℤ → ℕ → ℕ → Option Policy → EnforcementResult × Manager
check_quota_of m token made asked none = (allowed_result, m)
check_quota_of m token made asked (some p) = after_tracker p (check_tracker m token made asked p)

unfoldable pub check_quota : Manager → ℤ → ℕ → ℕ → EnforcementResult × Manager
unfolding allow_query get_effective_policy
check_quota m token made asked = check_quota_of m token made asked (get_effective_policy m token)

-- `if x, ok := m[k]; ok { x.update(...) }`
abbrev pub update_tracker : {V : Type 0} → (V → V) → Map ℤ V → ℤ → Option V → Map ℤ V
update_tracker f m k none = m
update_tracker f m k (some v) = put m k (f v)

unfoldable pub update_trackers_for_token : Manager → ℤ → Policy → Manager
update_trackers_for_token m token p = record m {
  minute_limiters =
      update_tracker (update_limit p.rate_limit_per_minute) m.minute_limiters token
        (get m.minute_limiters token);
  hour_limiters =
      update_tracker (update_limit p.rate_limit_per_hour) m.hour_limiters token
        (get m.hour_limiters token);
  quota_trackers =
      update_tracker (update_limits p.max_queries_per_hour p.max_queries_per_day) m.quota_trackers
        token (get m.quota_trackers token);
}

-- What CreatePolicy and UpdatePolicy do with the policy, once the row is stored and its times are set.
unfoldable pub store_policy : Manager → Policy → Manager
unfolding update_trackers_for_token
store_policy m p =
    update_trackers_for_token (record m { policies = put m.policies p.token_id p }) p.token_id p

unfoldable pub delete_policy : Manager → ℤ → Manager
delete_policy m token = record m {
  policies = remove m.policies token;
  minute_limiters = remove m.minute_limiters token;
  hour_limiters = remove m.hour_limiters token;
  quota_trackers = remove m.quota_trackers token;
}

pub record TokenUsage : Type 0 where
  pub token_id : ℤ
  pub queries_this_hour : ℕ
  pub queries_this_day : ℕ
  pub hour_reset_at : ℕ
  pub day_reset_at : ℕ
  pub rate_limit_remaining_per_min : ℕ
  pub rate_limit_remaining_per_hour : ℕ

abbrev usage_of : Option QuotaTracker → ℕ → (ℕ × ℕ × ℕ × ℕ) × Option QuotaTracker
usage_of none now = ((0, 0, next_boundary now hour, next_boundary now day), none)
usage_of (some q) now = let r = get_usage now q in (r.0, some r.1)

abbrev remaining_of : Option SlidingWindowCounter → ℕ → ℕ → ℕ × Option SlidingWindowCounter
remaining_of none now limit = (limit, none)
remaining_of (some s) now limit = let r = remaining now s in (r.0, some r.1)

abbrev pub limit_of : (Policy → ℕ) → Option Policy → ℕ
limit_of field none = 0
limit_of field (some p) = field p

abbrev put_some : {V : Type 0} → Map ℤ V → ℤ → Option V → Map ℤ V
put_some m k none = m
put_some m k (some v) = put m k v

abbrev remaining_if : Option SlidingWindowCounter → ℕ → ℕ → ℕ × Option SlidingWindowCounter
remaining_if o now limit = if ltb 0 limit then remaining_of o now limit else (0, none)

-- GetTokenUsage, which moves the windows of the token on.
unfoldable pub get_token_usage : Manager → ℤ → ℕ → ℕ → ℕ → TokenUsage × Manager
unfolding get_usage remaining get_effective_policy
get_token_usage m token now first second =
    let policy = get_effective_policy m token in
    let (usage, q) = usage_of (get m.quota_trackers token) now in
    let (left, s) =
      remaining_if (get m.minute_limiters token) first
        (limit_of (λ p. p.rate_limit_per_minute) policy) in
    let (left', s') =
      remaining_if (get m.hour_limiters token) second
        (limit_of (λ p. p.rate_limit_per_hour) policy) in
    (
      record {
        token_id = token;
        queries_this_hour = usage.0;
        queries_this_day = usage.1;
        hour_reset_at = usage.2;
        day_reset_at = usage.3;
        rate_limit_remaining_per_min = left;
        rate_limit_remaining_per_hour = left';
      },
      record m {
        quota_trackers = put_some m.quota_trackers token q;
        minute_limiters = put_some m.minute_limiters token s;
        hour_limiters = put_some m.hour_limiters token s';
      },
    )
