-- ===== src/Tests/Requests.antt =====
-- The lifecycle, the rate limits, the observability queue and the result limits at concrete inputs.
use mathlib.Core.List.{reverse}
use salesinfo_api_v.Base.{
  ℕ, ◌≡◌, refl, Bool, true, false, arith, List, [], ◌∷◌, ◌++◌, map, Option, none, some, String,
  ℕ_discrete, ◌==◌, if◌then◌else◌,
}
use salesinfo_api_v.Base.Dict.{lookup}
use salesinfo_api_v.Auth.RateLimit.{Window, attempts, allow, attempts-allow}
use salesinfo_api_v.Lifecycle.{
  ApplicationLifespan, cleared, starts, stops, register, register_all, start_all, start,
  lifespan_context,
}
use salesinfo_api_v.Lifecycle.Order.{lifespan_context_lem, lifespan_context_raised}
use salesinfo_api_v.Observability.WriteQueue
use salesinfo_api_v.Observability.WriteQueue.{
  WriteQueue, Action, enqueues, ticks, run, concat, records, run-stop,
}
use salesinfo_api_v.Services.ResultLimits.{
  QueryLimits, within_bytes, apply_result_limits, IsLimited, apply_result_limits_lem,
}

-- Key 5 has used up two attempts in the window that began at 0.
abbrev table : List (ℕ × Window)
table = (5, record { window_start = 0; attempt_count = 2 }) ∷ []

attempts-allow_example :
    (attempts ℕ_discrete table 5 2 60 (60 ∷ 70 ∷ 80 ∷ [])).1
    ≡ allow ℕ_discrete 2 (60 ∷ 70 ∷ 80 ∷ [])
unfolding lookup ℕ_discrete
attempts-allow_example =
    attempts-allow ℕ_discrete table 5 2 60 60 (70 ∷ 80 ∷ []) (omega arith, tt) (omega arith)

-- Steps are numbers; step 3 raises on startup if `fragile` is used, and on shutdown if `stuck` is.
abbrev sturdy : ℕ → Option (List (String × ℕ))
sturdy s = some (("db_session", s) ∷ [])

abbrev fragile : ℕ → Option (List (String × ℕ))
fragile s = if s == 3 then none else some []

abbrev willing : ℕ → Bool
willing s = true

abbrev stuck : ℕ → Bool
stuck s = if s == 3 then false else true

abbrev manager : ApplicationLifespan ℕ ℕ
manager = record { steps = 2 ∷ 3 ∷ 4 ∷ []; started_steps = []; container = cleared }

abbrev running : ApplicationLifespan ℕ ℕ
running = record manager { started_steps = 2 ∷ 3 ∷ 4 ∷ [] }

sturdy-start : (start sturdy willing manager).2 ≡ true
unfolding start start_all register_all register
sturdy-start = refl

fragile-start : (start fragile willing manager).2 ≡ false
unfolding start start_all register_all register
fragile-start = refl

lifespan_context_lem_example :
    (((lifespan_context sturdy willing true manager).1
        ≡ map starts (2 ∷ 3 ∷ 4 ∷ []) ++ map stops (reverse (2 ∷ 3 ∷ 4 ∷ [])))
      × ((lifespan_context sturdy willing true manager).2 ≡ true)
      × ((lifespan_context sturdy willing true manager).0.started_steps ≡ [])
      × ((lifespan_context sturdy willing true manager).0.container ≡ cleared))
    × (((lifespan_context sturdy willing false manager).1 ≡ map starts (2 ∷ 3 ∷ 4 ∷ []))
        × ((lifespan_context sturdy willing false manager).2 ≡ false)
        × ((lifespan_context sturdy willing false manager).0.started_steps ≡ 2 ∷ 3 ∷ 4 ∷ []))
lifespan_context_lem_example =
    lifespan_context_lem sturdy willing manager refl sturdy-start (refl, (refl, (refl, tt)))

lifespan_context_raised_example :
    (done : List ℕ) × (s : ℕ) × (later : List ℕ) × (manager.steps ≡ done ++ s ∷ later)
    × ((lifespan_context fragile willing true manager).0.started_steps ≡ [] ++ done)
    × ((lifespan_context fragile willing true manager).1 ≡ map starts done ++ starts s ∷ [])
    × ((lifespan_context fragile willing true manager).2 ≡ false)
lifespan_context_raised_example = lifespan_context_raised fragile willing true manager fragile-start

abbrev actions : List (Action ℕ)
actions = enqueues 1 ∷ enqueues 2 ∷ enqueues 3 ∷ ticks ∷ enqueues 4 ∷ []

run-stop_example :
    (concat (WriteQueue.stop (run (WriteQueue.init 2) actions)).flushed ≡ 1 ∷ 2 ∷ 3 ∷ 4 ∷ [])
    × ((WriteQueue.stop (run (WriteQueue.init 2) actions)).queue ≡ [])
run-stop_example = run-stop 2 actions

abbrev limits : QueryLimits
limits = record { max_result_rows = 3; max_result_bytes = 10 }

-- A row is its own length: 6 and 3 fit, 4 more bytes do not.
limits_test : apply_result_limits (λ r. r) limits (6 ∷ 3 ∷ 4 ∷ 1 ∷ []) ≡ (6 ∷ 3 ∷ [], true)
unfolding apply_result_limits within_bytes
limits_test = refl

apply_result_limits_lem_example :
    IsLimited
      (λ r. r)
      limits
      (6 ∷ 3 ∷ 4 ∷ 1 ∷ [])
      (apply_result_limits (λ r. r) limits (6 ∷ 3 ∷ 4 ∷ 1 ∷ []))
apply_result_limits_lem_example = apply_result_limits_lem (λ r. r) limits (6 ∷ 3 ∷ 4 ∷ 1 ∷ [])
