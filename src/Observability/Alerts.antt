-- ===== src/Observability/Alerts.antt =====
-- core/observability/alerts.py, `AlertEvaluator`. A ratio and a threshold are exact fractions, and a
-- utilization is not rounded. The texts of the messages are left out, and what goes to the
-- log is part of the result.
pub mod Deltas
pub mod Checks
pub mod Runs
use salesinfo_api_v.Base.{
  ℕ, ◌+◌, ◌-◌, ◌*◌, ◌/◌, ◌≡◌, Bool, true, false, ◌||◌, not, ltb, leb, ◌==◌, if◌then◌else◌, ite,
  List, [], ◌∷◌, ◌++◌, map, Option, none, some, max,
}
use salesinfo_api_v.Base.Dict.{lookup, assign}

pub record Ratio : Type 0 where
  pub num : ℕ
  pub den : ℕ

-- `r >= threshold`.
unfoldable pub reaches : Ratio → Ratio → Bool
reaches r threshold = leb (threshold.num * r.den) (r.num * threshold.den)

pub record AlertThresholds : Type 0 where
  pub pool_saturation_warning : Ratio
  pub pool_saturation_critical : Ratio
  pub executor_utilization_warning : Ratio
  pub query_concurrency_warning : Ratio
  pub persistence_queue_depth_warning_ratio : Ratio

-- The keys of `_prev_counters`, which are codes of alerts too.
pub data Counter : Type 0 where
  pool_timeouts pool_broken_connections persistence_dropped persistence_failed : Counter

unfoldable pub dec_counter : Discrete Counter
dec_counter = hlevel

pub data Code (K : Type 0) : Type 0 where
  increased : Counter → Code K
  pool_saturated pool_under_pressure persistence_queue_backlog sampling_escalated : Code K
  executor_saturated query_concurrency_saturated : K → Code K

pub data Severity : Type 0 where
  warning critical : Severity

pub data Value : Type 0 where
  count : ℕ → Value
  ratio : Ratio → Value
  load : Ratio → ℕ → Value
  flag : Bool → Value

pub record Alert (K : Type 0) : Type 0 where
  pub code : Code K
  pub severity : Severity
  pub value : Value
  pub threshold : Value

pub record Evaluator (K : Type 0) : Type 0 where
  pub thresholds : AlertThresholds
  pub prev_counters : List (Counter × ℕ)
  pub firing : List (Code K)

pub record PoolMetrics : Type 0 where
  pub saturation : Ratio
  pub timed_out_acquires : ℕ
  pub broken_connections_evicted : ℕ

pub record Executor : Type 0 where
  pub max_workers : ℕ
  pub active : ℕ
  pub queued : ℕ

pub record Concurrency : Type 0 where
  pub limit : ℕ
  pub in_use : ℕ

pub record Persistence : Type 0 where
  pub queue_depth : ℕ
  pub dropped : ℕ
  pub failed : ℕ

-- The arguments of `evaluate`; an empty dictionary is the empty list.
pub record Metrics (K : Type 0) : Type 0 where
  pub pool : Option PoolMetrics
  pub executors : List (K × Executor)
  pub classes : List (K × Concurrency)
  pub persistence : Option Persistence
  pub sampler_escalated : Bool
  pub persistence_queue_maxsize : ℕ

-- `int(n * r)`.
abbrev pub floored : ℕ → Ratio → ℕ
floored n r = n * r.num / r.den

-- `n or 1`.
abbrev pub or_one : ℕ → ℕ
or_one n = if n == 0 then 1 else n

abbrev pub previous : ℕ → Option ℕ → ℕ
previous current none = current
previous current (some n) = n

module _ {K : Type 0} where
  -- A counter that fell gives no alert: its difference stops at 0 here.
  unfoldable pub check_counter_delta :
      Evaluator K → Counter → ℕ → Severity → Evaluator K × List (Alert K)
  check_counter_delta e key current severity =
      let delta = current - previous current (lookup dec_counter key e.prev_counters) in
      (
        record e { prev_counters = assign dec_counter key current e.prev_counters },
        if ltb 0 delta
            then record {
              code = increased key;
              severity = severity;
              value = count delta;
              threshold = count 0;
            }
              ∷ []
            else [],
      )

  unfoldable pub check_saturation : AlertThresholds → Ratio → List (Alert K)
  check_saturation t saturation =
      if reaches saturation t.pool_saturation_critical
      then record {
        code = pool_saturated;
        severity = critical;
        value = ratio saturation;
        threshold = ratio t.pool_saturation_critical;
      }
        ∷ []
      else if reaches saturation t.pool_saturation_warning
      then record {
        code = pool_under_pressure;
        severity = warning;
        value = ratio saturation;
        threshold = ratio t.pool_saturation_warning;
      }
        ∷ []
      else []

  unfoldable pub check_pool : Evaluator K → PoolMetrics → Evaluator K × List (Alert K)
  check_pool e m =
      let timeouts = check_counter_delta e pool_timeouts m.timed_out_acquires critical in
      let evicted =
        check_counter_delta timeouts.0 pool_broken_connections m.broken_connections_evicted
          warning in
      (evicted.0, check_saturation e.thresholds m.saturation ++ (timeouts.1 ++ evicted.1))

  unfoldable pub check_executors : AlertThresholds → List (K × Executor) → List (Alert K)
  check_executors t [] = []
  check_executors t ((name, m) ∷ executors) =
      let utilization : Ratio = record { num = m.active; den = or_one m.max_workers } in
      let rest = check_executors t executors in
      if reaches utilization t.executor_utilization_warning || ltb 0 m.queued
      then record {
        code = executor_saturated name;
        severity = warning;
        value = load utilization m.queued;
        threshold = ratio t.executor_utilization_warning;
      }
        ∷ rest
      else rest

  unfoldable pub check_query_concurrency : AlertThresholds → List (K × Concurrency) → List (Alert K)
  check_query_concurrency t [] = []
  check_query_concurrency t ((cost, m) ∷ classes) =
      let used : Ratio = record { num = m.in_use; den = or_one m.limit } in
      let rest = check_query_concurrency t classes in
      if reaches used t.query_concurrency_warning
      then record {
        code = query_concurrency_saturated cost;
        severity = warning;
        value = ratio used;
        threshold = ratio t.query_concurrency_warning;
      }
        ∷ rest
      else rest

  unfoldable pub check_backlog : AlertThresholds → Persistence → ℕ → List (Alert K)
  check_backlog t m maxsize =
      let used : Ratio = record { num = m.queue_depth; den = max 1 maxsize } in
      if reaches used t.persistence_queue_depth_warning_ratio
      then record {
        code = persistence_queue_backlog;
        severity = warning;
        value = count m.queue_depth;
        threshold = count (floored maxsize t.persistence_queue_depth_warning_ratio);
      }
        ∷ []
      else []

  unfoldable pub check_persistence : Evaluator K → Persistence → ℕ → Evaluator K × List (Alert K)
  check_persistence e m maxsize =
      let lost = check_counter_delta e persistence_dropped m.dropped warning in
      let broken = check_counter_delta lost.0 persistence_failed m.failed warning in
      (broken.0, check_backlog e.thresholds m maxsize ++ (lost.1 ++ broken.1))

  abbrev pub check_some :
      {M : Type 0}
      → (Evaluator K → M → Evaluator K × List (Alert K))
      → Evaluator K
      → Option M
      → Evaluator K × List (Alert K)
  check_some check e none = (e, [])
  check_some check e (some m) = check e m

  abbrev pub escalation : Bool → List (Alert K)
  escalation true =
      record {
        code = sampling_escalated;
        severity = warning;
        value = flag true;
        threshold = flag false;
      }
      ∷ []
  escalation false = []

  -- The alerts, before they are logged.
  unfoldable pub checks : Evaluator K → Metrics K → Evaluator K × List (Alert K)
  checks e m =
      let pool = check_some check_pool e m.pool in
      let queue =
        check_some (λ e q. check_persistence e q m.persistence_queue_maxsize) pool.0
          m.persistence in
      (
        queue.0,
        pool.1
            ++ (check_executors e.thresholds m.executors
                ++ (check_query_concurrency e.thresholds m.classes
                    ++ (queue.1 ++ escalation m.sampler_escalated))),
      )

module _ {K : Type 0} (dec_code : Discrete (Code K)) where
  abbrev pub among : Code K → List (Code K) → Bool
  among c [] = false
  among c (x ∷ xs) = ite (dec_code x c) true (among c xs)

  -- The elements of the first list that are not in the second.
  unfoldable pub without : List (Code K) → List (Code K) → List (Code K)
  without [] ys = []
  without (x ∷ xs) ys = let rest = without xs ys in if among x ys then rest else x ∷ rest

  -- The new evaluator, the codes that are logged as alerts, and those logged as resolved.
  unfoldable pub log_newly_firing :
      Evaluator K → List (Alert K) → Evaluator K × List (Code K) × List (Code K)
  unfolding without
  log_newly_firing e alerts =
      let current = map (λ (a : Alert K). a.code) alerts in
      (record e { firing = current }, without current e.firing, without e.firing current)

  unfoldable pub evaluate : Evaluator K → Metrics K → Evaluator K × List (Alert K)
  unfolding checks log_newly_firing
  evaluate e m = let r = checks e m in ((log_newly_firing r.0 r.1).0, r.1)
