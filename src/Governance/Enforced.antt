-- ===== src/Governance/Enforced.antt =====
-- The manager over any sequence of checks and of changes of policies (internal/governance/manager.go).
use iot_edge_db.Prelude.{ℕ, ◌≡◌, refl, ap, sym, ◌∙◌, Option, none, some, arith, ℤ, int_dec, ite}
use iot_edge_db.GoMap.{Map, get, get-put, get-remove, int_key}
use iot_edge_db.Governance.Window.{update_limit}
use iot_edge_db.Governance.Quota.{Denial, update_limits}
use iot_edge_db.Governance.Manager.{
  Policy, GovernanceConfig, Manager, new_manager, Clock, get_effective_policy, limit_of, or_default,
  check_rate_limit, check_minute, check_hour, check_rate_limit_of, check_quota_of, check_quota,
  check_tracker, after_minute, after_hour, after_tracker, update_tracker, update_trackers_for_token,
  store_policy, delete_policy,
}
use iot_edge_db.Governance.Sync.{
  IsInSync, new_manager-IsInSync, check_minute-IsInSync, check_hour-IsInSync, check_minute-policy,
  check_tracker-IsInSync,
}

module _ (m : Manager) (token : ℤ) where
  after_hour_lem :
      (p : Policy) (r : Option ℕ × Manager) → IsInSync r.1 → IsInSync (after_hour p r).1
  after_hour_lem p (some seconds, m') c = c
  after_hour_lem p (none, m') c = c

  after_minute-IsInSync :
      (p : Policy) (clock : Clock) (r : Option ℕ × Manager)
      → get_effective_policy r.1 token ≡ some p
      → IsInSync r.1
      → IsInSync (after_minute token clock p r).1
  after_minute-IsInSync p clock (some seconds, m') h c = c
  after_minute-IsInSync p clock (none, m') h c =
      after_hour_lem p (check_hour m' token clock p) (check_hour-IsInSync m' token p h c clock)

  check_rate_limit_of-IsInSync :
      (first second : Clock) (o : Option Policy)
      → get_effective_policy m token ≡ o
      → IsInSync m
      → IsInSync (check_rate_limit_of m token first second o).1
  check_rate_limit_of-IsInSync first second none h c = c
  check_rate_limit_of-IsInSync first second (some p) h c =
      after_minute-IsInSync p second (check_minute m token first p)
        (check_minute-policy m token p h c first token ∙ h)
        (check_minute-IsInSync m token p h c first)

  check_rate_limit-IsInSync :
      (first second : Clock) → IsInSync m → IsInSync (check_rate_limit m token first second).1
  unfolding check_rate_limit
  check_rate_limit-IsInSync first second =
      check_rate_limit_of-IsInSync first second (get_effective_policy m token) refl

  after_tracker_lem :
      (p : Policy) (r : Option Denial × Manager) → IsInSync r.1 → IsInSync (after_tracker p r).1
  after_tracker_lem p (some d, m') c = c
  after_tracker_lem p (none, m') c = c

  check_quota_of-IsInSync :
      (made asked : ℕ) (o : Option Policy)
      → get_effective_policy m token ≡ o
      → IsInSync m
      → IsInSync (check_quota_of m token made asked o).1
  check_quota_of-IsInSync made asked none h c = c
  check_quota_of-IsInSync made asked (some p) h c =
      after_tracker_lem p (check_tracker m token made asked p)
        (check_tracker-IsInSync m token p h c made asked)

  check_quota-IsInSync : (made asked : ℕ) → IsInSync m → IsInSync (check_quota m token made asked).1
  unfolding check_quota
  check_quota-IsInSync made asked =
      check_quota_of-IsInSync made asked (get_effective_policy m token) refl

  delete_policy-IsInSync : IsInSync m → IsInSync (delete_policy m token)
  unfolding delete_policy get_effective_policy
  delete_policy-IsInSync c = record {
    minute = λ t s e.
        ground (
          arith,
          get-remove m.minute_limiters token t,
          get-remove m.policies token t,
          c.minute t s,
        );
    hour = λ t s e.
        ground
          (arith, get-remove m.hour_limiters token t, get-remove m.policies token t, c.hour t s);
    hourly = λ t s e.
        ground
          (arith, get-remove m.quota_trackers token t, get-remove m.policies token t, c.hourly t s);
    daily = λ t s e.
        ground
          (arith, get-remove m.quota_trackers token t, get-remove m.policies token t, c.daily t s);
  }

-- A map whose counters are given a new limit at one key.
module _ {V : Type 0} (limit : V → ℕ) (f : V → V) (n : ℕ) (set : (v : V) → limit (f v) ≡ n)
    (counters : Map ℤ V) (old : ℤ → ℕ)
    (c : (t : ℤ) (x : V) → get counters t ≡ some x → limit x ≡ old t) where
  update_tracker-limit :
      (k : ℤ) (o : Option V)
      → get counters k ≡ o
      → (t : ℤ) (x : V) → get (update_tracker f counters k o) t ≡ some x
      → limit x ≡ ite (int_dec k t) n (old t)
  update_tracker-limit k none h t x e = elim (int_dec k t) [
    | yes p ↦ ground (arith, ap (get counters) p)
    | no p ↦ ground (arith, c t x e)
  ]
  update_tracker-limit k (some v) h t x e =
      ground (arith, get-put counters k (f v) t, c t x, ap limit, set v)

module _ (m : Manager) (p : Policy) where
  of_ite :
      (field : Policy → ℕ) (t : ℤ) (d : Dec (p.token_id ≡ t))
      → limit_of field (or_default t m.config (ite d (some p) (get m.policies t)))
        ≡ ite d (field p) (limit_of field (get_effective_policy m t))
  unfolding get_effective_policy
  of_ite field t (yes e) = refl
  of_ite field t (no n) = refl

  stored_limit :
      (field : Policy → ℕ) (t : ℤ)
      → limit_of field (get_effective_policy (store_policy m p) t)
        ≡ ite (int_dec p.token_id t) (field p) (limit_of field (get_effective_policy m t))
  unfolding get_effective_policy store_policy update_trackers_for_token
  stored_limit field t =
      ap (λ o. limit_of field (or_default t m.config o)) (get-put m.policies p.token_id p t)
      ∙ of_ite field t (int_dec p.token_id t)

  store_policy-IsInSync : IsInSync m → IsInSync (store_policy m p)
  unfolding store_policy update_trackers_for_token
  store_policy-IsInSync c = record {
    minute = λ t s e.
        update_tracker-limit (λ s. s.limit) (update_limit p.rate_limit_per_minute)
          p.rate_limit_per_minute (λ s. refl) m.minute_limiters
          (λ t. limit_of (λ p. p.rate_limit_per_minute) (get_effective_policy m t)) c.minute
          p.token_id (get m.minute_limiters p.token_id) refl t s e
        ∙ sym (stored_limit (λ p. p.rate_limit_per_minute) t);
    hour = λ t s e.
        update_tracker-limit (λ s. s.limit) (update_limit p.rate_limit_per_hour)
          p.rate_limit_per_hour (λ s. refl) m.hour_limiters
          (λ t. limit_of (λ p. p.rate_limit_per_hour) (get_effective_policy m t)) c.hour p.token_id
          (get m.hour_limiters p.token_id) refl t s e
        ∙ sym (stored_limit (λ p. p.rate_limit_per_hour) t);
    hourly = λ t s e.
        update_tracker-limit (λ s. s.max_per_hour)
          (update_limits p.max_queries_per_hour p.max_queries_per_day) p.max_queries_per_hour
          (λ s. refl) m.quota_trackers
          (λ t. limit_of (λ p. p.max_queries_per_hour) (get_effective_policy m t)) c.hourly
          p.token_id (get m.quota_trackers p.token_id) refl t s e
        ∙ sym (stored_limit (λ p. p.max_queries_per_hour) t);
    daily = λ t s e.
        update_tracker-limit (λ s. s.max_per_day)
          (update_limits p.max_queries_per_hour p.max_queries_per_day) p.max_queries_per_day
          (λ s. refl) m.quota_trackers
          (λ t. limit_of (λ p. p.max_queries_per_day) (get_effective_policy m t)) c.daily p.token_id
          (get m.quota_trackers p.token_id) refl t s e
        ∙ sym (stored_limit (λ p. p.max_queries_per_day) t);
  }

-- The manager after some checks and changes of policies.
pub data Managed (config : GovernanceConfig) (policies : Map ℤ Policy) : Manager → Type 0 where
  started : Managed config policies (new_manager config policies)
  rate_checked :
      (m : Manager) (token : ℤ) (first second : Clock)
      → Managed config policies m
      → Managed config policies (check_rate_limit m token first second).1
  quota_checked :
      (m : Manager) (token : ℤ) (made asked : ℕ)
      → Managed config policies m
      → Managed config policies (check_quota m token made asked).1
  stored :
      (m : Manager) (p : Policy)
      → Managed config policies m
      → Managed config policies (store_policy m p)
  deleted :
      (m : Manager) (token : ℤ)
      → Managed config policies m
      → Managed config policies (delete_policy m token)

-- After any sequence of checks, of policies that are created, updated and deleted, each counter and each
-- tracker that a token has enforces the limits of the policy that is in force for the token.
pub Managed-IsInSync :
    (config : GovernanceConfig) (policies : Map ℤ Policy) {m : Manager}
    → Managed config policies m
    → IsInSync m
Managed-IsInSync config policies started = new_manager-IsInSync config policies
Managed-IsInSync config policies (rate_checked m token first second r) =
    check_rate_limit-IsInSync m token first second (Managed-IsInSync config policies r)
Managed-IsInSync config policies (quota_checked m token made asked r) =
    check_quota-IsInSync m token made asked (Managed-IsInSync config policies r)
Managed-IsInSync config policies (stored m p r) =
    store_policy-IsInSync m p (Managed-IsInSync config policies r)
Managed-IsInSync config policies (deleted m token r) =
    delete_policy-IsInSync m token (Managed-IsInSync config policies r)
