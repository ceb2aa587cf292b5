-- ===== src/Governance/Sync.antt =====
-- The limits that the counters of a token enforce, and its policy (internal/governance/manager.go).
use iot_edge_db.Prelude.{
  ℕ, ◌≡◌, refl, ap, sym, ◌∙◌, ◌||◌, Option, none, some, ltb, arith, ℤ, int_dec, Bool-cases, inl,
  inr,
}
use iot_edge_db.GoMap.{Map, get, put, get-put, get-empty, int_key}
use iot_edge_db.Governance.Window.{
  SlidingWindowCounter, new_sliding_window_counter, advance, allow, count_request, is_full,
  retry_after_sec,
}
use iot_edge_db.Governance.Limits.{total_of_advance}
use iot_edge_db.Governance.Quota.{QuotaTracker, hour, maybe_reset, allow_query}
use iot_edge_db.Governance.Manager.{
  Policy, GovernanceConfig, Manager, minute, new_manager, Clock, get_effective_policy, limit_of,
  check_limiter, get_or_create_limiter, check_minute, check_hour, check_tracker,
  get_or_create_tracker,
}

-- Each counter that a token has enforces the limit of the policy in force for the token.
pub record IsInSync (m : Manager) : Type 0 where
  pub minute :
      (t : ℤ) (s : SlidingWindowCounter)
      → get m.minute_limiters t ≡ some s
      → s.limit ≡ limit_of (λ p. p.rate_limit_per_minute) (get_effective_policy m t)
  pub hour :
      (t : ℤ) (s : SlidingWindowCounter)
      → get m.hour_limiters t ≡ some s
      → s.limit ≡ limit_of (λ p. p.rate_limit_per_hour) (get_effective_policy m t)
  pub hourly :
      (t : ℤ) (q : QuotaTracker)
      → get m.quota_trackers t ≡ some q
      → q.max_per_hour ≡ limit_of (λ p. p.max_queries_per_hour) (get_effective_policy m t)
  pub daily :
      (t : ℤ) (q : QuotaTracker)
      → get m.quota_trackers t ≡ some q
      → q.max_per_day ≡ limit_of (λ p. p.max_queries_per_day) (get_effective_policy m t)

pub new_manager-IsInSync :
    (config : GovernanceConfig) (policies : Map ℤ Policy) → IsInSync (new_manager config policies)
new_manager-IsInSync config policies = record {
  minute = λ t s e. ground (arith, get-empty {V = SlidingWindowCounter} t);
  hour = λ t s e. ground (arith, get-empty {V = SlidingWindowCounter} t);
  hourly = λ t q e. ground (arith, get-empty {V = QuotaTracker} t);
  daily = λ t q e. ground (arith, get-empty {V = QuotaTracker} t);
}

allow-limit : (now : ℕ) (s : SlidingWindowCounter) → (allow now s).1.limit ≡ s.limit
unfolding allow count_request
allow-limit now s = elim (Bool-cases (is_full (advance now s))) [
  | inl t ↦ rw t ((total_of_advance now s).1)
  | inr t ↦ rw t ((total_of_advance now s).1)
]

retry-limit :
    (now later : ℕ) (s : SlidingWindowCounter) → (retry_after_sec now later s).1.limit ≡ s.limit
unfolding retry_after_sec
retry-limit now later s = elim (Bool-cases (is_full (advance now s))) [
  | inl t ↦ rw t ((total_of_advance now s).1)
  | inr t ↦ rw t ((total_of_advance now s).1)
]

check_limiter-limit :
    (o : Option SlidingWindowCounter) (clock : Clock) (size limit : ℕ)
    → (check_limiter o clock size limit).1.limit
      ≡ (get_or_create_limiter o clock.made size limit).limit
unfolding check_limiter
check_limiter-limit o clock size limit =
    let s = get_or_create_limiter o clock.made size limit in
    elim (Bool-cases (allow clock.asked s).0) [
      | inl t ↦ rw t (allow-limit clock.asked s)
      | inr t ↦ rw t (
          retry-limit clock.retried clock.since (allow clock.asked s).1 ∙ allow-limit clock.asked s)
    ]

-- A map of counters, each with the limit of its token.
module _ (limits : ℤ → ℕ) (counters : Map ℤ SlidingWindowCounter)
    (c : (t : ℤ) (s : SlidingWindowCounter) → get counters t ≡ some s → s.limit ≡ limits t) where
  put_limited :
      (k : ℤ) (s : SlidingWindowCounter)
      → s.limit ≡ limits k
      → (t : ℤ) (x : SlidingWindowCounter) → get (put counters k s) t ≡ some x
      → x.limit ≡ limits t
  put_limited k s h t x e = elim (int_dec k t) [
    | yes p ↦ ground (arith, get-put counters k s t, ap limits p)
    | no p ↦ ground (arith, get-put counters k s t, c t x)
  ]

  created_limited :
      (k : ℤ) (o : Option SlidingWindowCounter) (now size : ℕ)
      → get counters k ≡ o
      → (get_or_create_limiter o now size (limits k)).limit ≡ limits k
  unfolding new_sliding_window_counter
  created_limited k none now size e = refl
  created_limited k (some s) now size e = c k s e

  checked_limited :
      (k : ℤ) (clock : Clock) (size limit : ℕ)
      → limits k ≡ limit
      → (t : ℤ) (x : SlidingWindowCounter)
      → get (put counters k (check_limiter (get counters k) clock size limit).1) t ≡ some x
      → x.limit ≡ limits t
  checked_limited k clock size limit h =
      put_limited k (check_limiter (get counters k) clock size limit).1 (
        check_limiter-limit (get counters k) clock size limit
        ∙ ap (λ l. (get_or_create_limiter (get counters k) clock.made size l).limit) (sym h)
        ∙ created_limited k (get counters k) clock.made size refl)

module _ (m : Manager) (token : ℤ) (p : Policy) (h : get_effective_policy m token ≡ some p)
    (c : IsInSync m) where
  pub check_minute-IsInSync : (clock : Clock) → IsInSync (check_minute m token clock p).1
  unfolding get_effective_policy
  check_minute-IsInSync clock = elim (Bool-cases (ltb 0 p.rate_limit_per_minute)) [
    | inl t ↦ rw t (record {
      minute =
          checked_limited (λ t. limit_of (λ p. p.rate_limit_per_minute) (get_effective_policy m t))
            m.minute_limiters c.minute token clock minute p.rate_limit_per_minute
            (ap (limit_of (λ p. p.rate_limit_per_minute)) h);
      hour = c.hour;
      hourly = c.hourly;
      daily = c.daily;
    })
    | inr t ↦ rw t c
  ]

  pub check_hour-IsInSync : (clock : Clock) → IsInSync (check_hour m token clock p).1
  unfolding get_effective_policy
  check_hour-IsInSync clock = elim (Bool-cases (ltb 0 p.rate_limit_per_hour)) [
    | inl t ↦ rw t (record {
      minute = c.minute;
      hour =
          checked_limited (λ t. limit_of (λ p. p.rate_limit_per_hour) (get_effective_policy m t))
            m.hour_limiters c.hour token clock hour p.rate_limit_per_hour
            (ap (limit_of (λ p. p.rate_limit_per_hour)) h);
      hourly = c.hourly;
      daily = c.daily;
    })
    | inr t ↦ rw t c
  ]

  pub check_minute-policy :
      (clock : Clock) (t : ℤ)
      → get_effective_policy (check_minute m token clock p).1 t ≡ get_effective_policy m t
  unfolding get_effective_policy
  check_minute-policy clock t = elim (Bool-cases (ltb 0 p.rate_limit_per_minute)) [
    | inl u ↦ rw u refl
    | inr u ↦ rw u refl
  ]

  created_tracker_limited :
      (o : Option QuotaTracker) (now : ℕ)
      → get m.quota_trackers token ≡ o
      → ((get_or_create_tracker o now p).max_per_hour ≡ p.max_queries_per_hour)
        × ((get_or_create_tracker o now p).max_per_day ≡ p.max_queries_per_day)
  created_tracker_limited none now e = (refl, refl)
  created_tracker_limited (some q) now e = (
    c.hourly token q e ∙ ap (limit_of (λ p. p.max_queries_per_hour)) h,
    c.daily token q e ∙ ap (limit_of (λ p. p.max_queries_per_day)) h,
  )

  allow_query-limits :
      (now : ℕ) (q : QuotaTracker)
      → ((allow_query now q).1.max_per_hour ≡ q.max_per_hour)
        × ((allow_query now q).1.max_per_day ≡ q.max_per_day)
  unfolding allow_query maybe_reset
  allow_query-limits now q = ground arith

  pub check_tracker-IsInSync : (made asked : ℕ) → IsInSync (check_tracker m token made asked p).1
  unfolding get_effective_policy
  check_tracker-IsInSync made asked =
      let q = get_or_create_tracker (get m.quota_trackers token) made p in
      let (a, b) = allow_query-limits asked q in
      let (a', b') = created_tracker_limited (get m.quota_trackers token) made refl in
      let hourly : (ℤ → ℕ) =
        λ t. limit_of (λ p. p.max_queries_per_hour) (get_effective_policy m t) in
      let daily : (ℤ → ℕ) = λ t. limit_of (λ p. p.max_queries_per_day) (get_effective_policy m t) in
      elim (Bool-cases (ltb 0 p.max_queries_per_hour || ltb 0 p.max_queries_per_day)) [
        | inl u ↦ rw u (record {
          minute = c.minute;
          hour = c.hour;
          hourly = λ t x e. elim (int_dec token t) [
            | yes y ↦ ground (
              arith,
              get-put m.quota_trackers token (allow_query asked q).1 t,
              a ∙ a',
              ap (limit_of (λ p. p.max_queries_per_hour)) h,
              ap hourly y,
            )
            | no n ↦
                ground
                  (arith, get-put m.quota_trackers token (allow_query asked q).1 t, c.hourly t x)
          ];
          daily = λ t x e. elim (int_dec token t) [
            | yes y ↦ ground (
              arith,
              get-put m.quota_trackers token (allow_query asked q).1 t,
              b ∙ b',
              ap (limit_of (λ p. p.max_queries_per_day)) h,
              ap daily y,
            )
            | no n ↦
                ground
                  (arith, get-put m.quota_trackers token (allow_query asked q).1 t, c.daily t x)
          ];
        })
        | inr u ↦ rw u c
      ]
