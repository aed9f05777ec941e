-- ===== src/Observability/Alerts/Runs.antt =====
-- Any number of evaluations of core/observability/alerts.py.
use salesinfo_api_v.Base.{ℕ, ◌+◌, ◌≤◌, ◌≡◌, arith, List, [], ◌∷◌, ◌++◌, some}
use salesinfo_api_v.Base.Dict.{lookup}
use salesinfo_api_v.Observability.Alerts.{
  Counter, dec_counter, Code, Alert, Evaluator, Metrics, checks, evaluate, log_newly_firing,
}
use salesinfo_api_v.Observability.Alerts.Deltas.{reported, reported-append}
use salesinfo_api_v.Observability.Alerts.Checks.{after_pool, after_metrics, checks_lem}

module _ {K : Type 0} where
  -- No reading of the counter is below the one before it.
  abbrev pub Rises : Counter → ℕ → List (Metrics K) → Type 0
  Rises c f [] = Unit
  Rises c f (m ∷ ms) =
      (f ≤ after_pool c m f)
      × (after_pool c m f ≤ after_metrics c m f)
      × Rises c (after_metrics c m f) ms

  -- The last reading, or `f` if no evaluation has one.
  abbrev pub last_reading : Counter → ℕ → List (Metrics K) → ℕ
  last_reading c f [] = f
  last_reading c f (m ∷ ms) = last_reading c (after_metrics c m f) ms

  module _ (dec_code : Discrete (Code K)) where
    -- The evaluator after the evaluations, and all their alerts.
    unfoldable pub evaluate_all : Evaluator K → List (Metrics K) → Evaluator K × List (Alert K)
    evaluate_all e [] = (e, [])
    evaluate_all e (m ∷ ms) =
        let first = evaluate dec_code e m in
        let rest = evaluate_all first.0 ms in (rest.0, first.1 ++ rest.1)

    -- Once an evaluation has seen a counter at `f`: whatever evaluations follow, with or without the metrics
    -- that have the counter, as long as it does not fall, the differences that their alerts report of it add
    -- up to what it has grown by, no occurrence missed or reported twice.
    pub reported-evaluate_all :
        (c : Counter) (e : Evaluator K) (ms : List (Metrics K)) (f : ℕ)
        → lookup dec_counter c e.prev_counters ≡ some f
        → Rises c f ms
        → reported c (evaluate_all e ms).1 + f ≡ last_reading c f ms
    unfolding evaluate_all evaluate log_newly_firing
    reported-evaluate_all c e [] f known up = omega arith
    reported-evaluate_all c e (m ∷ ms) f known up =
        let r = checks e m in
        let (next, grown) = checks_lem c e m f known up.0 up.1 in
        let after = evaluate dec_code e m in
        let rest = reported-evaluate_all c after.0 ms (after_metrics c m f) next up.2 in
        omega (arith, grown, rest, reported-append c r.1 (evaluate_all after.0 ms).1)
