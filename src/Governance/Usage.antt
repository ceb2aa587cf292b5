-- ===== src/Governance/Usage.antt =====
-- The quotas over lists of queries (internal/governance/quota_tracker.go).
use iot_edge_db.Prelude.{
  ℕ, ◌≡◌, refl, ◌≤◌, ◌<◌, ◌+◌, ◌-◌, Bool, true, false, ◌&&◌, Option, none, some, List, [], ◌∷◌,
  arith, ltb, leb, if◌then◌else◌, length, is_some, Bool-cases, inl, inr, ap, ◌∙◌,
}
use iot_edge_db.Governance.Quota.{
  QuotaTracker, new_quota_tracker, maybe_reset, allow_query, exhausted, Denial, hourly_exceeded,
  daily_exceeded,
}

-- How many of the queries that come at these times are admitted, and the tracker after them.
unfoldable pub admitted_queries : List ℕ → QuotaTracker → ℕ × QuotaTracker
unfolding allow_query
admitted_queries [] q = (0, q)
admitted_queries (now ∷ times) q =
    let (denial, q') = allow_query now q in
    let (n, q'') = admitted_queries times q' in (if is_some denial then n else n + 1, q'')

unfoldable pub all_until : ℕ → List ℕ → Bool
all_until end [] = true
all_until end (now ∷ times) = let rest = all_until end times in leb now end && rest

abbrev pub min : ℕ → ℕ → ℕ
min a b = if leb a b then a else b

-- Within a limit that is set.
pub record IsWithin (q : QuotaTracker) : Type 0 where
  pub hourly : 0 < q.max_per_hour → q.queries_this_hour ≤ q.max_per_hour
  pub daily : 0 < q.max_per_day → q.queries_this_day ≤ q.max_per_day

allow_query-IsWithin : (now : ℕ) (q : QuotaTracker) → IsWithin q → IsWithin (allow_query now q).1
unfolding allow_query maybe_reset
allow_query-IsWithin now q c = record {
  hourly = λ lt. ground (arith, c.hourly);
  daily = λ lt. ground (arith, c.daily);
}

admitted_queries-IsWithin :
    (times : List ℕ) (q : QuotaTracker) → IsWithin q → IsWithin (admitted_queries times q).1
unfolding admitted_queries
admitted_queries-IsWithin [] q c = c
admitted_queries-IsWithin (now ∷ times) q c =
    admitted_queries-IsWithin times (allow_query now q).1 (allow_query-IsWithin now q c)

-- A new tracker never counts more than its limits, whatever queries come and whenever.
pub new-IsWithin :
    (now max_per_hour max_per_day : ℕ) (times : List ℕ)
    → IsWithin (admitted_queries times (new_quota_tracker now max_per_hour max_per_day)).1
new-IsWithin now max_per_hour max_per_day times =
    admitted_queries-IsWithin times (new_quota_tracker now max_per_hour max_per_day)
      (record { hourly = λ lt. omega arith; daily = λ lt. omega arith })

maybe_reset-early :
    (now : ℕ) (q : QuotaTracker)
    → now ≤ q.hour_reset_at
    → now ≤ q.day_reset_at
    → maybe_reset now q ≡ q
unfolding maybe_reset
maybe_reset-early now q a b =
    let h : ltb q.hour_reset_at now ≡ false = ground (arith, a) in
    let d : ltb q.day_reset_at now ≡ false = ground (arith, b) in rw h (rw d refl)

counted : QuotaTracker → QuotaTracker
counted q = record q {
  queries_this_hour = q.queries_this_hour + 1;
  queries_this_day = q.queries_this_day + 1;
}

-- The admissions that are left.
abbrev pub room : QuotaTracker → ℕ
room q = min (q.max_per_hour - q.queries_this_hour) (q.max_per_day - q.queries_this_day)

-- The answer, once the tracker is reset.
answer : QuotaTracker → Option Denial × QuotaTracker
answer q =
    if exhausted q.max_per_hour q.queries_this_hour
    then (some hourly_exceeded, q)
    else if exhausted q.max_per_day q.queries_this_day
    then (some daily_exceeded, q)
    else (none, counted q)

module _ (q : QuotaTracker) (hourly : 0 < q.max_per_hour) (daily : 0 < q.max_per_day) where
  answer-room : 0 < room q → answer q ≡ (none, counted q)
  unfolding answer
  answer-room lt =
      let h : exhausted q.max_per_hour q.queries_this_hour ≡ false = ground (arith, lt, hourly) in
      let d : exhausted q.max_per_day q.queries_this_day ≡ false = ground (arith, lt, daily) in
      rw h (rw d refl)

  answer-full : room q ≡ 0 → (is_some (answer q).0 ≡ true) × ((answer q).1 ≡ q)
  unfolding answer
  answer-full e = elim (Bool-cases (exhausted q.max_per_hour q.queries_this_hour)) [
    | inl t ↦ rw t (refl, refl)
    | inr t ↦
        let d : exhausted q.max_per_day q.queries_this_day ≡ true =
          ground (arith, e, t, hourly, daily) in
        rw t (rw d (refl, refl))
  ]

allow_query-early :
    (now : ℕ) (q : QuotaTracker)
    → now ≤ q.hour_reset_at
    → now ≤ q.day_reset_at
    → allow_query now q ≡ answer q
unfolding allow_query answer counted
allow_query-early now q a b = ap answer (maybe_reset-early now q a b)

-- While neither the hour nor the day ends, and both limits are set, exactly as many of the queries are
-- admitted as fit under both limits.
pub admitted_queries-exact :
    (times : List ℕ) (q : QuotaTracker)
    → all_until q.hour_reset_at times ≡ true
    → all_until q.day_reset_at times ≡ true
    → 0 < q.max_per_hour
    → 0 < q.max_per_day
    → (admitted_queries times q).0 ≡ min (length times) (room q)
unfolding admitted_queries all_until counted
admitted_queries-exact [] q a b h d = ground arith
admitted_queries-exact (now ∷ times) q a b h d =
    let e = allow_query-early now q (ground (arith, a)) (ground (arith, b)) in
    elim (Bool-cases (leb (room q) 0)) [
      | inl t ↦
          let (f, g) = answer-full q h d (ground (arith, t)) in
          ground (
            arith,
            ap (λ r. is_some r.0) e,
            f,
            ap (λ r. (admitted_queries times r.1).0) e,
            ap (λ r. (admitted_queries times r).0) g,
            admitted_queries-exact times q (ground (arith, a)) (ground (arith, b)) h d,
            t,
          )
      | inr t ↦
          let f = e ∙ answer-room q h d (ground (arith, t)) in
          ground (
            arith,
            ap (λ r. is_some r.0) f,
            ap (λ r. (admitted_queries times r.1).0) f,
            admitted_queries-exact times (counted q) (ground (arith, a)) (ground (arith, b)) h d,
            t,
          )
    ]
