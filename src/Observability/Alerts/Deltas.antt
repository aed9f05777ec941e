-- ===== src/Observability/Alerts/Deltas.antt =====
-- The counters of core/observability/alerts.py: every new occurrence is reported, and only once.
use salesinfo_api_v.Base.{
  ℕ, ◌+◌, ◌-◌, ◌≤◌, ◌≡◌, refl, ◌∙◌, arith, Bool, true, false, ltb, List, [], ◌∷◌, ◌++◌, Option,
  none, some, inl, inr, ◌≢◌, if_neg, Bool-cases, ite,
}
use salesinfo_api_v.Base.Dict.{lookup, lookup-assign}
use salesinfo_api_v.Observability.Alerts.{
  Ratio, AlertThresholds, Counter, pool_timeouts, pool_broken_connections, persistence_dropped,
  persistence_failed, dec_counter, Code, increased, Severity, Alert, Value, count, Evaluator,
  PoolMetrics, Executor, Concurrency, Persistence, previous, check_counter_delta, check_saturation,
  check_executors, check_query_concurrency, check_backlog, escalation,
}

-- What a metric shows of a counter.
abbrev pub pool_reading : Counter → Option PoolMetrics → Option ℕ
pool_reading c none = none
pool_reading pool_timeouts (some m) = some m.timed_out_acquires
pool_reading pool_broken_connections (some m) = some m.broken_connections_evicted
pool_reading persistence_dropped (some m) = none
pool_reading persistence_failed (some m) = none

abbrev pub queue_reading : Counter → Option Persistence → Option ℕ
queue_reading c none = none
queue_reading pool_timeouts (some m) = none
queue_reading pool_broken_connections (some m) = none
queue_reading persistence_dropped (some m) = some m.dropped
queue_reading persistence_failed (some m) = some m.failed

abbrev pub or_old : Option ℕ → Option ℕ → Option ℕ
or_old none old = old
or_old (some n) old = some n

abbrev pub due : Option ℕ → Option ℕ → ℕ
due none old = 0
due (some n) old = n - previous n old

-- What was last seen of a counter.
abbrev pub shown : Option ℕ → ℕ → ℕ
shown none f = f
shown (some n) f = n

pub or_old-shown : (r : Option ℕ) (f : ℕ) → or_old r (some f) ≡ some (shown r f)
or_old-shown none f = refl
or_old-shown (some n) f = refl

pub due-shown : (r : Option ℕ) (f : ℕ) → f ≤ shown r f → due r (some f) + f ≡ shown r f
due-shown none f h = omega arith
due-shown (some n) f h = omega arith

module _ {K : Type 0} where
  abbrev pub amount : Counter → Code K → Value → ℕ
  amount c (increased d) (count n) = ite (dec_counter d c) n 0
  amount c _ _ = 0

  -- The sum of the differences that alerts report of a counter.
  abbrev pub reported : Counter → List (Alert K) → ℕ
  reported c [] = 0
  reported c (a ∷ alerts) = amount c a.code a.value + reported c alerts

  pub reported-append :
      (c : Counter) (xs ys : List (Alert K)) → reported c (xs ++ ys) ≡ reported c xs + reported c ys
  reported-append c [] ys = omega arith
  reported-append c (x ∷ xs) ys = omega (arith, reported-append c xs ys)

  pub reported-delta :
      (e : Evaluator K) (key c : Counter) (n : ℕ) (s : Severity)
      → reported c (check_counter_delta e key n s).1
        ≡ ite (dec_counter key c) (n - previous n (lookup dec_counter key e.prev_counters)) 0
  unfolding check_counter_delta
  reported-delta e key c n s =
      elim (Bool-cases (ltb 0 (n - previous n (lookup dec_counter key e.prev_counters)))) [
        | inl more ↦ rw more (omega arith)
        | inr none_new ↦ rw none_new (ground (arith, none_new))
      ]

  pub lookup-delta :
      (e : Evaluator K) (key c : Counter) (n : ℕ) (s : Severity)
      → lookup dec_counter c (check_counter_delta e key n s).0.prev_counters
        ≡ ite (dec_counter key c) (some n) (lookup dec_counter c e.prev_counters)
  unfolding check_counter_delta
  lookup-delta e key c n s = lookup-assign dec_counter key c n e.prev_counters

  pub reported-executors :
      (c : Counter) (t : AlertThresholds) (xs : List (K × Executor))
      → reported c (check_executors t xs) ≡ 0
  unfolding check_executors
  reported-executors c t [] = refl
  reported-executors c t ((name, m) ∷ xs) = ground (arith, reported-executors c t xs)

  pub reported-classes :
      (c : Counter) (t : AlertThresholds) (xs : List (K × Concurrency))
      → reported c (check_query_concurrency t xs) ≡ 0
  unfolding check_query_concurrency
  reported-classes c t [] = refl
  reported-classes c t ((cost, m) ∷ xs) = ground (arith, reported-classes c t xs)

  -- Two counters, one after the other.
  pub both_lem :
      (e : Evaluator K) (c j k : Counter) (m n : ℕ) (s t : Severity)
      → ((lookup dec_counter c
            (check_counter_delta (check_counter_delta e j m s).0 k n t).0.prev_counters)
          ≡ ite
              (dec_counter k c)
              (some n)
              (ite (dec_counter j c) (some m) (lookup dec_counter c e.prev_counters)))
  both_lem e c j k m n s t =
      rw (lookup-delta (check_counter_delta e j m s).0 k c n t, lookup-delta e j c m s) refl

module _ (K : Type 0) where
  pub reported-escalation : (c : Counter) (b : Bool) → reported {K = K} c (escalation b) ≡ 0
  reported-escalation c true = refl
  reported-escalation c false = refl

  pub reported-saturation :
      (c : Counter) (t : AlertThresholds) (r : Ratio)
      → reported {K = K} c (check_saturation t r) ≡ 0
  unfolding check_saturation
  reported-saturation c t r = ground arith

  pub reported-backlog :
      (c : Counter) (t : AlertThresholds) (m : Persistence) (maxsize : ℕ)
      → reported {K = K} c (check_backlog t m maxsize) ≡ 0
  unfolding check_backlog
  reported-backlog c t m maxsize = ground arith

module _ {K : Type 0} where
  -- Two counters, one after the other: of the second what the first has left is compared.
  pub two_lem :
      (e : Evaluator K) (c j k : Counter) (m n : ℕ) (s t : Severity)
      → j ≢ k
      → reported c (check_counter_delta e j m s).1
          + reported c (check_counter_delta (check_counter_delta e j m s).0 k n t).1
        ≡ ite (dec_counter j c) (m - previous m (lookup dec_counter j e.prev_counters)) 0
          + ite (dec_counter k c) (n - previous n (lookup dec_counter k e.prev_counters)) 0
  two_lem e c j k m n s t differ =
      let kept : lookup dec_counter k (check_counter_delta e j m s).0.prev_counters
          ≡ lookup dec_counter k e.prev_counters =
        lookup-delta e j k m s
        ∙ if_neg (dec_counter j k) differ (some m) (lookup dec_counter k e.prev_counters) in
      rw (reported-delta e j c m s, reported-delta (check_counter_delta e j m s).0 k c n t, kept)
        refl

pub timeouts-ne-broken : pool_timeouts ≢ pool_broken_connections
timeouts-ne-broken h = cc

pub dropped-ne-failed : persistence_dropped ≢ persistence_failed
dropped-ne-failed h = cc

pub pool_choice :
    (c : Counter) (old : Option ℕ) (m : PoolMetrics)
    → ite
        (dec_counter pool_broken_connections c)
        (some m.broken_connections_evicted)
        (ite (dec_counter pool_timeouts c) (some m.timed_out_acquires) old)
      ≡ or_old (pool_reading c (some m)) old
pool_choice pool_timeouts old m = ground arith
pool_choice pool_broken_connections old m = ground arith
pool_choice persistence_dropped old m = ground arith
pool_choice persistence_failed old m = ground arith

pub pool_due :
    (c : Counter) (old : Counter → Option ℕ) (m : PoolMetrics)
    → ite
          (dec_counter pool_timeouts c)
          (m.timed_out_acquires - previous m.timed_out_acquires (old pool_timeouts))
          0
        + ite
            (dec_counter pool_broken_connections c)
            (m.broken_connections_evicted
              - previous m.broken_connections_evicted (old pool_broken_connections))
            0
      ≡ due (pool_reading c (some m)) (old c)
pool_due pool_timeouts old m = ground arith
pool_due pool_broken_connections old m = ground arith
pool_due persistence_dropped old m = ground arith
pool_due persistence_failed old m = ground arith

pub queue_choice :
    (c : Counter) (old : Option ℕ) (m : Persistence)
    → ite
        (dec_counter persistence_failed c)
        (some m.failed)
        (ite (dec_counter persistence_dropped c) (some m.dropped) old)
      ≡ or_old (queue_reading c (some m)) old
queue_choice pool_timeouts old m = ground arith
queue_choice pool_broken_connections old m = ground arith
queue_choice persistence_dropped old m = ground arith
queue_choice persistence_failed old m = ground arith

pub queue_due :
    (c : Counter) (old : Counter → Option ℕ) (m : Persistence)
    → ite
          (dec_counter persistence_dropped c)
          (m.dropped - previous m.dropped (old persistence_dropped))
          0
        + ite
            (dec_counter persistence_failed c)
            (m.failed - previous m.failed (old persistence_failed))
            0
      ≡ due (queue_reading c (some m)) (old c)
queue_due pool_timeouts old m = ground arith
queue_due pool_broken_connections old m = ground arith
queue_due persistence_dropped old m = ground arith
queue_due persistence_failed old m = ground arith
