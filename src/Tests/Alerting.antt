-- ===== src/Tests/Alerting.antt =====
-- Alerts of core/observability/alerts.py at concrete inputs.
use salesinfo_api_v.Base.{ℕ, ◌+◌, ◌≡◌, refl, false, arith, [], ◌∷◌, map, some, none, ℕ_discrete}
use salesinfo_api_v.Base.Dict.{lookup, assign}
use salesinfo_api_v.Observability.Alerts.{
  Ratio, AlertThresholds, pool_timeouts, dec_counter, Code, pool_saturated, executor_saturated,
  increased, Alert, Evaluator, Metrics, reaches, check_counter_delta, check_saturation, check_pool,
  check_executors, check_query_concurrency, check_backlog, check_persistence, checks, without,
  log_newly_firing, evaluate,
}
use salesinfo_api_v.Observability.Alerts.Deltas.{reported}
use salesinfo_api_v.Observability.Alerts.Runs.{Rises, evaluate_all, reported-evaluate_all}

abbrev percent : ℕ → Ratio
percent n = record { num = n; den = 100 }

abbrev thresholds : AlertThresholds
thresholds = record {
  pool_saturation_warning = percent 80;
  pool_saturation_critical = percent 95;
  executor_utilization_warning = percent 90;
  query_concurrency_warning = percent 90;
  persistence_queue_depth_warning_ratio = percent 75;
}

-- Four timeouts of the pool were seen before.
abbrev evaluator : Evaluator ℕ
evaluator = record { thresholds = thresholds; prev_counters = (pool_timeouts, 4) ∷ []; firing = [] }

abbrev metrics : ℕ → ℕ → Metrics ℕ
metrics timeouts dropped = record {
  pool = some (record {
    saturation = percent 96;
    timed_out_acquires = timeouts;
    broken_connections_evicted = 0;
  });
  executors = (3, record { max_workers = 0; active = 1; queued = 0 }) ∷ [];
  classes = (1, record { limit = 10; in_use = 2 }) ∷ [];
  persistence = some (record { queue_depth = 3; dropped = dropped; failed = 0 });
  sampler_escalated = false;
  persistence_queue_maxsize = 1000;
}

abbrev no_pool : Metrics ℕ
no_pool = record (metrics 0 1) { pool = none }

-- What the tests compute with.
code : Unit {0}
unfolding lookup assign dec_counter reaches check_counter_delta check_saturation check_pool
    check_executors check_query_concurrency check_backlog check_persistence checks without
    log_newly_firing evaluate evaluate_all
code = tt

code-discrete : Discrete (Code ℕ)
code-discrete = hlevel ℕ_discrete

codes_test :
    map (λ (a : Alert ℕ). a.code) (checks evaluator (metrics 6 0)).1
    ≡ pool_saturated ∷ increased pool_timeouts ∷ executor_saturated 3 ∷ []
unfolding code
codes_test = refl

known : lookup dec_counter pool_timeouts evaluator.prev_counters ≡ some 4
unfolding code
known = refl

rising : Rises pool_timeouts 4 (metrics 6 0 ∷ no_pool ∷ metrics 9 1 ∷ [])
rising = omega arith

reported-evaluate_all_example :
    reported pool_timeouts
        (evaluate_all code-discrete evaluator (metrics 6 0 ∷ no_pool ∷ metrics 9 1 ∷ [])).1
      + 4
    ≡ 9
reported-evaluate_all_example =
    reported-evaluate_all code-discrete pool_timeouts evaluator
      (metrics 6 0 ∷ no_pool ∷ metrics 9 1 ∷ []) 4 known rising
