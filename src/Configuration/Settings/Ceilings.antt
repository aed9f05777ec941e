-- ===== src/Configuration/Settings/Ceilings.antt =====
-- Settings of core/app/settings.py that follow from the machine, but for the ceilings of the pools.
use text.Mathlib.Text.{◌==◌ as str_eq}
use text.Mathlib.TextEquality.{eq_iff}
use salesinfo_api_v.Base.{
  ℕ, ◌≤◌, ◌≡◌, refl, arith, true, false, [], Option, none, some, String, ◌≢◌,
}
use salesinfo_api_v.Base.Int.{ℤ, pos}
use salesinfo_api_v.Configuration.Sizing.{Host, detect_cpu_count, recommended_sizing}
use salesinfo_api_v.Configuration.Settings.{
  AppSettings, validate, pool_problems, executor_problems, query_problems, access_problems,
  interval_problems,
}
use salesinfo_api_v.Configuration.Settings.Environment.{
  Env, settings, pool_from_env, executors_from_env, loaded, from_env, plus_two,
  default_pool_settings, default_executor_settings,
}

abbrev From : ℕ → Option ℕ → Type 0
From floor none = Unit
From floor (some n) = floor ≤ n

abbrev as_int : Option ℕ → Option ℤ
as_int none = none
as_int (some n) = some (pos n)

-- An environment that sets the secret, and perhaps the ceilings of the two pools, and nothing else.
unfoldable pub ceilings : String → Option ℕ → Option ℕ → Env
ceilings secret data_ceiling state_ceiling = record {
  jwt_secret_key = some secret;
  jwt_algorithm = none;
  jwt_expiry_seconds = none;
  cors_allow_origins = none;
  cors_allow_credentials = none;
  max_result_rows = none;
  max_result_bytes = none;
  max_query_duration = none;
  fast_query_concurrency_limit = none;
  normal_query_concurrency_limit = none;
  expensive_query_concurrency_limit = none;
  auth_rate_limit_enabled = none;
  auth_rate_limit_max_attempts = none;
  auth_rate_limit_window = none;
  maintenance_enabled = none;
  maintenance_interval = none;
  otel_export_interval = none;
  cross_process_publish_interval = none;
  application_data_pool_min_size = none;
  application_data_pool_max_size = as_int data_ceiling;
  application_state_pool_min_size = none;
  application_state_pool_max_size = as_int state_ceiling;
  application_data_executor_workers = none;
  application_state_executor_workers = none;
  background_executor_workers = none;
  password_executor_workers = none;
}

-- What the ceilings leave open is derived from `n` processors.
ceilings-accepted :
    (n : ℕ) (secret : String) (data_ceiling state_ceiling : Option ℕ)
    → str_eq secret "" ≡ false
    → From (recommended_sizing n).application_data_pool_min data_ceiling
    → From (recommended_sizing n).state_pool_min state_ceiling
    → validate (settings (recommended_sizing n) (ceilings secret data_ceiling state_ceiling)) true
      ≡ []
unfolding validate pool_problems executor_problems query_problems access_problems interval_problems
    pool_from_env executors_from_env default_pool_settings default_executor_settings
    recommended_sizing ceilings
ceilings-accepted n secret none none text a b = ground (arith, text)
ceilings-accepted n secret none (some k) text a b = ground (arith, text)
ceilings-accepted n secret (some j) none text a b = ground (arith, text)
ceilings-accepted n secret (some j) (some k) text a b = ground (arith, text)

-- On any machine, an environment that sets a secret that is not empty and at most the ceilings of the
-- two pools, to numbers from the derived floors on, is accepted, with two threads more than connections
-- for each pool.
pub from_env-ceilings :
    (host : Host) (secret : String) (data_ceiling state_ceiling : Option ℕ)
    → secret ≢ ""
    → From (recommended_sizing (detect_cpu_count host)).application_data_pool_min data_ceiling
    → From (recommended_sizing (detect_cpu_count host)).state_pool_min state_ceiling
    → (s : AppSettings) × (from_env host (ceilings secret data_ceiling state_ceiling) true
        ≡ loaded s)
      × (s.executors.application_data_workers ≡ plus_two s.pool.application_data_max_size)
      × (s.executors.application_state_workers ≡ plus_two s.pool.application_state_max_size)
unfolding from_env ceilings executors_from_env pool_from_env default_executor_settings
from_env-ceilings host secret data_ceiling state_ceiling text a b =
    let sizing = recommended_sizing (detect_cpu_count host) in
    let env = ceilings secret data_ceiling state_ceiling in
    let given : str_eq secret "" ≡ false = ground (arith, eq_iff secret "", text) in
    let fine =
      ceilings-accepted (detect_cpu_count host) secret data_ceiling state_ceiling given a b in
    (settings sizing env, rw (given, fine) refl, refl, refl)
