-- ===== src/Performance/AdaptiveSampler.antt =====
-- core/performance/adaptive_sampler.py, `AdaptiveSampler`. Rates are exact fractions instead of floats; the clock
-- counts units of which `second` make a second, and is read once in a call. What `random.uniform(0, 100)`
-- gives is an argument.
pub mod Escalation
pub mod Bounds
use salesinfo_api_v.Base.{
  ℕ, ◌+◌, ◌-◌, ◌*◌, ltb, leb, Bool, true, false, ◌||◌, if◌then◌else◌, List, [], ◌∷◌, Option, none,
  some,
}

-- `num / den`.
pub record Fraction : Type 0 where
  pub num : ℕ
  pub den : ℕ

unfoldable pub less : Fraction → Fraction → Bool
less a b = ltb (a.num * b.den) (b.num * a.den)

-- `min(bound, x)` and `max(bound, x)`.
abbrev pub at_most : Fraction → Fraction → Fraction
at_most bound x = if less x bound then x else bound

abbrev pub at_least : Fraction → Fraction → Fraction
at_least bound x = if less bound x then x else bound

pub record AdaptiveSamplerConfig : Type 0 where
  pub target_samples_per_second : Fraction
  pub min_rate_percent : Fraction
  pub max_rate_percent : Fraction
  pub adjustment_interval : ℕ
  pub slow_request_threshold : ℕ
  pub escalation : ℕ

pub record AdaptiveSampler : Type 0 where
  pub rate_percent : Fraction
  pub window_start : ℕ
  pub window_sampled : ℕ
  pub window_requests : ℕ
  pub escalated_until : ℕ
  pub total_requests : ℕ
  pub total_sampled : ℕ
  pub total_escalations : ℕ
  pub total_bad_outcomes : ℕ

abbrev pub init : AdaptiveSamplerConfig → ℕ → AdaptiveSampler
init config now = record {
  rate_percent = config.max_rate_percent;
  window_start = now;
  window_sampled = 0;
  window_requests = 0;
  escalated_until = 0;
  total_requests = 0;
  total_sampled = 0;
  total_escalations = 0;
  total_bad_outcomes = 0;
}

-- `rate * 1.5 + 1.0`, and `rate * 0.7`.
abbrev pub raised : Fraction → Fraction
raised r = record { num = 3 * r.num + 2 * r.den; den = 2 * r.den }

abbrev pub eased : Fraction → Fraction
eased r = record { num = 7 * r.num; den = 10 * r.den }

-- `target * 1.2`.
abbrev pub tolerated : Fraction → Fraction
tolerated t = record { num = 12 * t.num; den = 10 * t.den }

module _ (second : ℕ) (config : AdaptiveSamplerConfig) where
  -- Samples per second in the window; 0 if no time has passed.
  abbrev pub actual_rate : AdaptiveSampler → ℕ → Fraction
  actual_rate s elapsed =
      if ltb 0 elapsed
      then record { num = s.window_sampled * second; den = elapsed }
      else record { num = 0; den = 1 }

  abbrev pub next_rate : AdaptiveSampler → ℕ → Fraction
  next_rate s elapsed =
      if less (actual_rate s elapsed) config.target_samples_per_second
      then at_most config.max_rate_percent (raised s.rate_percent)
      else (if less (tolerated config.target_samples_per_second) (actual_rate s elapsed)
          then at_least config.min_rate_percent (eased s.rate_percent)
          else s.rate_percent)

  unfoldable pub maybe_adjust : AdaptiveSampler → ℕ → AdaptiveSampler
  maybe_adjust s now =
      if ltb (now - s.window_start) config.adjustment_interval then s else record s {
        rate_percent = next_rate s (now - s.window_start);
        window_start = now;
        window_sampled = 0;
        window_requests = 0;
      }

  -- Whether the request is sampled.
  unfoldable pub should_sample : AdaptiveSampler → Fraction → ℕ → AdaptiveSampler × Bool
  should_sample s draw now =
      let counted = record s {
        total_requests = s.total_requests + 1;
        window_requests = s.window_requests + 1;
      } in
      let a = maybe_adjust counted now in
      let taken = record a {
        window_sampled = a.window_sampled + 1;
        total_sampled = a.total_sampled + 1;
      } in
      if ltb now a.escalated_until || less draw a.rate_percent then (taken, true) else (a, false)

  unfoldable pub escalate : AdaptiveSampler → ℕ → AdaptiveSampler
  escalate s now = record s {
    total_escalations = s.total_escalations + 1;
    escalated_until = now + config.escalation;
    rate_percent = config.max_rate_percent;
  }

  -- An error of the server, or a slow request.
  abbrev pub is_bad : ℕ → ℕ → Bool
  is_bad status_code duration = leb 500 status_code || leb config.slow_request_threshold duration

  unfoldable pub record_outcome : AdaptiveSampler → ℕ → ℕ → ℕ → AdaptiveSampler
  record_outcome s status_code duration now =
      if is_bad status_code duration
      then escalate (record s { total_bad_outcomes = s.total_bad_outcomes + 1 }) now
      else s
