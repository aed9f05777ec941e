-- ===== src/Tests/Sampling.antt =====
-- The adaptive sampler at concrete inputs, with ten units of the clock a second.
use salesinfo_api_v.Base.{ℕ, ◌≡◌, refl, arith, true, false, List, [], ◌∷◌, All}
use salesinfo_api_v.Performance.AdaptiveSampler.{
  Fraction, less, AdaptiveSamplerConfig, AdaptiveSampler, init, maybe_adjust, should_sample,
  escalate, record_outcome,
}
use salesinfo_api_v.Performance.AdaptiveSampler.Escalation.{
  Event, begins, ends, samples, samples-record_outcome,
}

-- What the tests compute with.
code : Unit {0}
unfolding less maybe_adjust should_sample escalate record_outcome samples
code = tt

abbrev percent : ℕ → Fraction
percent n = record { num = n; den = 1 }

-- 5 samples a second, between 1 and 100 percent, adjusted every 5 seconds; slow is 2 seconds, and an
-- escalation lasts 30.
abbrev config : AdaptiveSamplerConfig
config = record {
  target_samples_per_second = percent 5;
  min_rate_percent = percent 1;
  max_rate_percent = percent 100;
  adjustment_interval = 50;
  slow_request_threshold = 20;
  escalation = 300;
}

abbrev sampler : AdaptiveSampler
sampler = record (init config 0) { rate_percent = percent 2 }

abbrev events : List Event
events = begins (percent 99) 110 ∷ ends 200 5 115 ∷ begins (percent 50) 399 ∷ []

samples-record_outcome_example :
    All
      (λ sampled. sampled ≡ true)
      (samples 10 config (record_outcome 10 config sampler 503 1 100) events)
samples-record_outcome_example = samples-record_outcome 10 config sampler 503 1 100 events refl (
  omega arith,
  (omega arith),
  (omega arith, (omega arith), (omega arith, (omega arith), (omega arith))),
)

-- Without the bad outcome the first of them is not sampled.
not_sampled :
    (should_sample 10 config (record sampler { window_start = 100 }) (percent 99) 110).1 ≡ false
unfolding code
not_sampled = refl
