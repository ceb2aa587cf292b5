-- ===== src/Governance/Quota.antt =====
-- The hourly and daily quotas (internal/governance/quota_tracker.go). Times are in nanoseconds from the zero
-- time. A limit that is not positive is no limit, as 0 is.
use iot_edge_db.Prelude.{ℕ, ◌+◌, Bool, ◌&&◌, Option, none, some, ltb, leb, if◌then◌else◌}
use iot_edge_db.Governance.Window.{truncate}

pub record QuotaTracker : Type 0 where
  pub queries_this_hour : ℕ
  pub queries_this_day : ℕ
  pub hour_reset_at : ℕ
  pub day_reset_at : ℕ
  pub max_per_hour : ℕ
  pub max_per_day : ℕ

abbrev pub hour : ℕ
hour = 3600000000000

abbrev pub day : ℕ
day = 86400000000000

-- now.Truncate(d).Add(d)
abbrev pub next_boundary : ℕ → ℕ → ℕ
next_boundary now d = truncate now d + d

abbrev pub new_quota_tracker : ℕ → ℕ → ℕ → QuotaTracker
new_quota_tracker now max_per_hour max_per_day = record {
  queries_this_hour = 0;
  queries_this_day = 0;
  hour_reset_at = next_boundary now hour;
  day_reset_at = next_boundary now day;
  max_per_hour = max_per_hour;
  max_per_day = max_per_day;
}

abbrev reset_hour : ℕ → QuotaTracker → QuotaTracker
reset_hour now q =
    if ltb q.hour_reset_at now
    then record q { queries_this_hour = 0; hour_reset_at = next_boundary now hour }
    else q

abbrev reset_day : ℕ → QuotaTracker → QuotaTracker
reset_day now q =
    if ltb q.day_reset_at now
    then record q { queries_this_day = 0; day_reset_at = next_boundary now day }
    else q

unfoldable pub maybe_reset : ℕ → QuotaTracker → QuotaTracker
maybe_reset now q = reset_day now (reset_hour now q)

-- The reasons of a denial; `none` is an admission.
pub data Denial : Type 0 where
  hourly_exceeded daily_exceeded : Denial

-- used >= limit, where there is a limit
abbrev pub exhausted : ℕ → ℕ → Bool
exhausted limit used = ltb 0 limit && leb limit used

unfoldable pub allow_query : ℕ → QuotaTracker → Option Denial × QuotaTracker
unfolding maybe_reset
allow_query now q =
    let q' = maybe_reset now q in
    if exhausted q'.max_per_hour q'.queries_this_hour
    then (some hourly_exceeded, q')
    else if exhausted q'.max_per_day q'.queries_this_day
    then (some daily_exceeded, q')
    else (
      none,
      record q' {
        queries_this_hour = q'.queries_this_hour + 1;
        queries_this_day = q'.queries_this_day + 1;
      },
    )

-- The hourly use, the daily use, and when they end.
unfoldable pub get_usage : ℕ → QuotaTracker → (ℕ × ℕ × ℕ × ℕ) × QuotaTracker
unfolding maybe_reset
get_usage now q =
    let q' = maybe_reset now q in
    ((q'.queries_this_hour, q'.queries_this_day, q'.hour_reset_at, q'.day_reset_at), q')

abbrev pub update_limits : ℕ → ℕ → QuotaTracker → QuotaTracker
update_limits max_per_hour max_per_day q = record q {
  max_per_hour = max_per_hour;
  max_per_day = max_per_day;
}
