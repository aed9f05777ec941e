-- ===== src/Observability/Alerts/Checks.antt =====
-- One evaluation of core/observability/alerts.py: what its checks report of the counters.
use salesinfo_api_v.Base.{List, ℕ, ◌+◌, ◌≤◌, ◌≡◌, refl, ap, ◌∙◌, arith, ◌++◌, Option, none, some}
use salesinfo_api_v.Base.Dict.{lookup}
use salesinfo_api_v.Observability.Alerts.{
  Counter, pool_timeouts, pool_broken_connections, persistence_dropped, persistence_failed,
  dec_counter, Alert, Evaluator, PoolMetrics, Persistence, Metrics, check_counter_delta,
  check_saturation, check_pool, check_executors, check_query_concurrency, check_persistence,
  check_backlog, check_some, checks, escalation, critical, warning,
}
use salesinfo_api_v.Observability.Alerts.Deltas.{
  pool_reading, queue_reading, or_old, due, shown, or_old-shown, due-shown, reported,
  reported-append, reported-executors, reported-classes, reported-escalation, reported-saturation,
  reported-backlog, both_lem, two_lem, timeouts-ne-broken, dropped-ne-failed, pool_choice, pool_due,
  queue_choice, queue_due,
}

module _ {K : Type 0} where
  -- The checks of the pool report what is due of its counters, and remember their values.
  pool_lem :
      (c : Counter) (e : Evaluator K) (o : Option PoolMetrics)
      → (lookup dec_counter c (check_some check_pool e o).0.prev_counters
          ≡ or_old (pool_reading c o) (lookup dec_counter c e.prev_counters))
        × (reported c (check_some check_pool e o).1
            ≡ due (pool_reading c o) (lookup dec_counter c e.prev_counters))
  unfolding check_pool
  pool_lem c e none = (refl, refl)
  pool_lem c e (some m) =
      let t = check_counter_delta e pool_timeouts m.timed_out_acquires critical in
      let b =
        check_counter_delta t.0 pool_broken_connections m.broken_connections_evicted warning in
      let parts : reported c (check_saturation e.thresholds m.saturation ++ (t.1 ++ b.1))
          ≡ reported c t.1 + reported c b.1 =
        omega (
          arith,
          reported-append c (check_saturation e.thresholds m.saturation) (t.1 ++ b.1),
          reported-saturation K c e.thresholds m.saturation,
          reported-append c t.1 b.1,
        ) in
      (
        both_lem e c pool_timeouts pool_broken_connections m.timed_out_acquires
              m.broken_connections_evicted critical warning
            ∙ pool_choice c (lookup dec_counter c e.prev_counters) m,
        parts
            ∙ two_lem e c pool_timeouts pool_broken_connections m.timed_out_acquires
                m.broken_connections_evicted critical warning timeouts-ne-broken
            ∙ pool_due c (λ k. lookup dec_counter k e.prev_counters) m,
      )

  -- So do those of the queue.
  queue_lem :
      (c : Counter) (e : Evaluator K) (o : Option Persistence) (maxsize : ℕ)
      → let r = check_some (λ e q. check_persistence e q maxsize) e o in
        (lookup dec_counter c r.0.prev_counters
          ≡ or_old (queue_reading c o) (lookup dec_counter c e.prev_counters))
        × (reported c r.1 ≡ due (queue_reading c o) (lookup dec_counter c e.prev_counters))
  unfolding check_persistence
  queue_lem c e none maxsize = (refl, refl)
  queue_lem c e (some m) maxsize =
      let l = check_counter_delta e persistence_dropped m.dropped warning in
      let b = check_counter_delta l.0 persistence_failed m.failed warning in
      let backlog = check_backlog e.thresholds m maxsize in
      let parts : reported c (backlog ++ (l.1 ++ b.1)) ≡ reported c l.1 + reported c b.1 = omega (
        arith,
        reported-append c backlog (l.1 ++ b.1),
        reported-backlog K c e.thresholds m maxsize,
        reported-append c l.1 b.1,
      ) in
      (
        both_lem e c persistence_dropped persistence_failed m.dropped m.failed warning warning
            ∙ queue_choice c (lookup dec_counter c e.prev_counters) m,
        parts
            ∙ two_lem e c persistence_dropped persistence_failed m.dropped m.failed warning warning
                dropped-ne-failed
            ∙ queue_due c (λ k. lookup dec_counter k e.prev_counters) m,
      )

  abbrev pub after_pool : Counter → Metrics K → ℕ → ℕ
  after_pool c m f = shown (pool_reading c m.pool) f

  abbrev pub after_metrics : Counter → Metrics K → ℕ → ℕ
  after_metrics c m f = shown (queue_reading c m.persistence) (after_pool c m f)

  pub checks_lem :
      (c : Counter) (e : Evaluator K) (m : Metrics K) (f : ℕ)
      → lookup dec_counter c e.prev_counters ≡ some f
      → f ≤ after_pool c m f
      → after_pool c m f ≤ after_metrics c m f
      → (lookup dec_counter c (checks e m).0.prev_counters ≡ some (after_metrics c m f))
        × (reported c (checks e m).1 + f ≡ after_metrics c m f)
  unfolding checks
  checks_lem c e m f known up up' =
      let p = check_some check_pool e m.pool in
      let q =
        check_some (λ e q. check_persistence e q m.persistence_queue_maxsize) p.0 m.persistence in
      let (p_known, p_due) = pool_lem c e m.pool in
      let (q_known, q_due) = queue_lem c p.0 m.persistence m.persistence_queue_maxsize in
      let between : lookup dec_counter c p.0.prev_counters ≡ some (after_pool c m f) =
        p_known
        ∙ ap (or_old (pool_reading c m.pool)) known
        ∙ or_old-shown (pool_reading c m.pool) f in
      let first : reported c p.1 + f ≡ after_pool c m f = omega (
        arith,
        p_due ∙ ap (due (pool_reading c m.pool)) known,
        due-shown (pool_reading c m.pool) f up,
      ) in
      let second : reported c q.1 + after_pool c m f ≡ after_metrics c m f = omega (
        arith,
        q_due ∙ ap (due (queue_reading c m.persistence)) between,
        due-shown (queue_reading c m.persistence) (after_pool c m f) up',
      ) in
      let x = check_executors e.thresholds m.executors in
      let y = check_query_concurrency e.thresholds m.classes in
      let z : List (Alert K) = escalation m.sampler_escalated in
      (
        q_known
            ∙ ap (or_old (queue_reading c m.persistence)) between
            ∙ or_old-shown (queue_reading c m.persistence) (after_pool c m f),
        omega (
          arith,
          first,
          second,
          reported-append c p.1 (x ++ (y ++ (q.1 ++ z))),
          reported-append c x (y ++ (q.1 ++ z)),
          reported-append c y (q.1 ++ z),
          reported-append c q.1 z,
          reported-executors c e.thresholds m.executors,
          reported-classes c e.thresholds m.classes,
          reported-escalation K c m.sampler_escalated,
        ),
      )
