-- ===== src/Configuration/Settings/Validity.antt =====
-- Which settings `validate` in core/app/settings.py lets through.
use salesinfo_api_v.Base.{
  ◌+◌, ◌≤◌, ◌≡◌, refl, arith, Bool, true, false, ◌&&◌, not, List, [], ◌∷◌, ◌++◌, inl, inr, ◌⊎◌,
  Bool-cases, subst,
}
use salesinfo_api_v.Base.Int.{ℤ, pos, lt_int, le_int, above_zero, below_zero}
use salesinfo_api_v.Configuration.Sizing.{Host, detect_cpu_count, recommended_sizing}
use salesinfo_api_v.Configuration.Settings.{
  Float, finite, infinity, minus_infinity, nan, le_float, gt_float, positive_float, AppSettings,
  Problem, PoolRuntimeSettings, ExecutorRuntimeSettings, Label, data_workers, state_workers,
  background_workers, password_workers, too_few_workers, result_rows, result_bytes, query_duration,
  outlasts_pool_timeout, no_secret, jwt_expiry, algorithms, unknown_algorithm, is_empty, no_origins,
  is_missing, validate, contains, in_microseconds, positive, min_max, data_min, data_max, state_min,
  state_max, pool_problems, executor_problems, query_problems, access_problems, check,
}
use salesinfo_api_v.Configuration.Settings.Environment.{
  Env, settings, pool_from_env, loaded, get_or, unless_invalid, from_env, default_pool_settings,
}

-- An order of integers, by their parts.
infix 50 ◌≤ℤ◌
abbrev pub ◌≤ℤ◌ : ℤ → ℤ → Type 0
a ≤ℤ b = above_zero a + below_zero b ≤ above_zero b + below_zero a

module _ {ℓ} {A : Type ℓ} where
  append-eq-nil : (xs : List A) {ys : List A} → xs ++ ys ≡ [] → (xs ≡ []) × (ys ≡ [])
  append-eq-nil [] h = (refl, h)
  append-eq-nil (x ∷ xs) h = cc

check-eq-nil : (b : Bool) (p : Problem) → check b p ≡ [] → b ≡ false
check-eq-nil true p h = cc
check-eq-nil false p h = refl

le_of_not_lt : (a b : ℤ) (p : Problem) → check (lt_int a b) p ≡ [] → b ≤ℤ a
le_of_not_lt a b p h = let e = check-eq-nil (lt_int a b) p h in ground (arith, e)

positive_lem : (a : ℤ) (p : Problem) → check (le_int a (pos 0)) p ≡ [] → pos 1 ≤ℤ a
positive_lem a p h = let e = check-eq-nil (le_int a (pos 0)) p h in ground (arith, e)

min_max_lem :
    (low high : ℤ) (l m : Label) → min_max low high l m ≡ [] → (pos 1 ≤ℤ low) × (low ≤ℤ high)
min_max_lem low high l m h =
    let (least, rest) = append-eq-nil (positive low l) h in
    let (most, order) = append-eq-nil (positive high m) rest in
    (positive_lem low _ least, le_of_not_lt high low _ order)

pool_problems_lem :
    (p : PoolRuntimeSettings)
    → pool_problems p ≡ []
    → (pos 1 ≤ℤ p.application_data_min_size)
      × (p.application_data_min_size ≤ℤ p.application_data_max_size)
      × (pos 1 ≤ℤ p.application_state_min_size)
      × (p.application_state_min_size ≤ℤ p.application_state_max_size)
unfolding pool_problems
pool_problems_lem p h =
    let (first, rest) =
      append-eq-nil
        (min_max p.application_data_min_size p.application_data_max_size data_min data_max) h in
    let (second, timeout) =
      append-eq-nil
        (min_max p.application_state_min_size p.application_state_max_size state_min state_max)
        rest in
    let a = min_max_lem p.application_data_min_size p.application_data_max_size _ _ first in
    let b = min_max_lem p.application_state_min_size p.application_state_max_size _ _ second in
    (a.0, a.1, b.0, b.1)

executor_problems_lem :
    (p : PoolRuntimeSettings) (e : ExecutorRuntimeSettings)
    → executor_problems p e ≡ []
    → (p.application_data_max_size ≤ℤ e.application_data_workers)
      × (p.application_state_max_size ≤ℤ e.application_state_workers)
unfolding executor_problems
executor_problems_lem p e h =
    let (w1, h1) = append-eq-nil (positive e.application_data_workers data_workers) h in
    let (w2, h2) = append-eq-nil (positive e.application_state_workers state_workers) h1 in
    let (w3, h3) = append-eq-nil (positive e.background_workers background_workers) h2 in
    let (w4, h4) = append-eq-nil (positive e.password_workers password_workers) h3 in
    let (few, state) =
      append-eq-nil
        (check (lt_int e.application_data_workers p.application_data_max_size)
          (too_few_workers data_workers))
        h4 in
    (
      le_of_not_lt e.application_data_workers p.application_data_max_size _ few,
      le_of_not_lt e.application_state_workers p.application_state_max_size _ state,
    )

-- Either nan, or a finite time that is not 0 and at most `limit`.
abbrev pub IsWithin : Float → ℤ → Type 0
IsWithin duration limit =
    (duration ≡ nan) ⊎ ((d : ℤ) × (duration ≡ finite d) × (pos 1 ≤ℤ d) × (d ≤ℤ limit))

float_lem :
    (duration : Float) (limit : ℤ) (p q : Problem)
    → check (le_float duration (pos 0)) p ≡ []
    → check (gt_float duration limit) q ≡ []
    → IsWithin duration limit
float_lem (finite d) limit p q above below =
    inr (d, refl, positive_lem d p above, le_of_not_lt limit d q below)
float_lem infinity limit p q above below = cc
float_lem minus_infinity limit p q above below = cc
float_lem nan limit p q above below = inl refl

query_problems_lem :
    (s : AppSettings)
    → query_problems s ≡ []
    → IsWithin s.max_query_duration (in_microseconds s.pool.timeout)
unfolding query_problems
query_problems_lem s h =
    let (rows, h1) = append-eq-nil (positive s.max_result_rows result_rows) h in
    let (bytes, h2) = append-eq-nil (positive s.max_result_bytes result_bytes) h1 in
    let (duration, h3) = append-eq-nil (positive_float s.max_query_duration query_duration) h2 in
    let (timeout, h4) =
      append-eq-nil
        (check (gt_float s.max_query_duration (in_microseconds s.pool.timeout))
          outlasts_pool_timeout)
        h3 in
    float_lem s.max_query_duration (in_microseconds s.pool.timeout) _ _ duration timeout

access_problems_lem :
    (s : AppSettings) (require_jwt_secret : Bool)
    → access_problems s require_jwt_secret ≡ []
    → (require_jwt_secret && is_missing s.jwt_secret_key ≡ false)
      × (s.cors_allow_credentials && contains s.cors_allow_origins "*" ≡ false)
unfolding access_problems
access_problems_lem s require h =
    let (secret, h1) = append-eq-nil (check (require && is_missing s.jwt_secret_key) no_secret) h in
    let (expiry, h2) = append-eq-nil (positive s.jwt_expiry_seconds jwt_expiry) h1 in
    let (algorithm, h3) =
      append-eq-nil (check (not (contains algorithms s.jwt_algorithm)) unknown_algorithm) h2 in
    let (origins, wildcard) = append-eq-nil (check (is_empty s.cors_allow_origins) no_origins) h3 in
    (check-eq-nil _ _ secret, check-eq-nil _ _ wildcard)

-- The pools are in order, no pool has more connections than there are threads to drive them, a query
-- ends before a wait for a connection would, unless its time is nan, tokens are signed with a secret where one is required, and
-- credentials do not go to every origin.
pub record IsUsable (s : AppSettings) (require_jwt_secret : Bool) : Type 0 where
  pub data_floor : pos 1 ≤ℤ s.pool.application_data_min_size
  pub data_order : s.pool.application_data_min_size ≤ℤ s.pool.application_data_max_size
  pub state_floor : pos 1 ≤ℤ s.pool.application_state_min_size
  pub state_order : s.pool.application_state_min_size ≤ℤ s.pool.application_state_max_size
  pub data_threads : s.pool.application_data_max_size ≤ℤ s.executors.application_data_workers
  pub state_threads : s.pool.application_state_max_size ≤ℤ s.executors.application_state_workers
  pub query_in_time : IsWithin s.max_query_duration (in_microseconds s.pool.timeout)
  pub secret : require_jwt_secret && is_missing s.jwt_secret_key ≡ false
  pub credentials : s.cors_allow_credentials && contains s.cors_allow_origins "*" ≡ false

pub validate-IsUsable :
    (s : AppSettings) (require_jwt_secret : Bool)
    → validate s require_jwt_secret ≡ []
    → IsUsable s require_jwt_secret
unfolding validate
validate-IsUsable s require h =
    let (pools, h1) = append-eq-nil (pool_problems s.pool) h in
    let (executors, h2) = append-eq-nil (executor_problems s.pool s.executors) h1 in
    let (queries, h3) = append-eq-nil (query_problems s) h2 in
    let (access, h4) = append-eq-nil (access_problems s require) h3 in
    let (data_floor, data_order, state_floor, state_order) = pool_problems_lem s.pool pools in
    let (data_threads, state_threads) = executor_problems_lem s.pool s.executors executors in
    let query_in_time = query_problems_lem s queries in
    let (secret, credentials) = access_problems_lem s require access in
    record {
      data_floor = data_floor;
      data_order = data_order;
      state_floor = state_floor;
      state_order = state_order;
      data_threads = data_threads;
      state_threads = state_threads;
      query_in_time = query_in_time;
      secret = secret;
      credentials = credentials;
    }

unless_invalid_lem :
    (t s : AppSettings) (problems : List Problem)
    → unless_invalid t problems ≡ loaded s
    → (problems ≡ []) × (t ≡ s)
unless_invalid_lem t s [] h = (refl, cc)
unless_invalid_lem t s (p ∷ ps) h = cc

-- Settings that `from_env` returns, whatever the machine and the environment: both pools have at least
-- one connection and no floor above their ceiling; neither has more connections than there are threads to
-- drive them; the longest time for a query is nan, which `validate` lets through, or else a positive time
-- of at most the 30 seconds for which a caller waits for a connection; there is a secret if one is
-- required; and credentials do not go to every origin.
pub from_env-IsUsable :
    (host : Host) (env : Env) (require_jwt_secret : Bool) (s : AppSettings)
    → from_env host env require_jwt_secret ≡ loaded s
    → IsUsable s require_jwt_secret × (s.pool.timeout ≡ pos 30)
unfolding from_env pool_from_env default_pool_settings
from_env-IsUsable host env require s h =
    let t = settings (recommended_sizing (detect_cpu_count host)) env in
    elim (Bool-cases (require && is_missing env.jwt_secret_key)) [
      | inl missing ↦ absurd (ground (arith, rw (missing, from_env) at h))
      | inr secret ↦
          elim (Bool-cases (
            get_or env.cors_allow_credentials false
            && contains (get_or env.cors_allow_origins ("*" ∷ [])) "*")) [
              | inl wild ↦ absurd (ground (arith, rw (secret, wild, from_env) at h))
              | inr named ↦
                  let (none_wrong, same) =
                    unless_invalid_lem t s (validate t require)
                      (rw (secret, named, from_env) at h) in
                  subst (λ s. IsUsable s require × (s.pool.timeout ≡ pos 30)) same
                    (validate-IsUsable t require none_wrong, refl)
            ]
    ]
