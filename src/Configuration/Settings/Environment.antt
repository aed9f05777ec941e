-- ===== src/Configuration/Settings/Environment.antt =====
-- `AppSettings.from_env` of core/app/settings.py. An environment variable is the value that `int()`,
-- `float()` or a flag's parsing gives, and `none` where it is not set; a text that they refuse is not
-- modelled.
use salesinfo_api_v.Base.{
  zero, suc, ◌+◌, ◌*◌, Bool, true, false, ◌&&◌, if◌then◌else◌, List, [], ◌∷◌, Option, none, some,
  String,
}
use salesinfo_api_v.Base.Int.{ℤ, pos, negsuc}
use salesinfo_api_v.Configuration.Sizing.{
  Host, ConcurrencySizing, detect_cpu_count, recommended_sizing,
}
use salesinfo_api_v.Configuration.Settings.{
  Float, finite, PoolRuntimeSettings, ExecutorRuntimeSettings, AppSettings, Problem, one_second,
  is_missing, contains, validate,
}

-- The variables that `from_env` reads for these settings.
pub record Env : Type 0 where
  pub jwt_secret_key : Option String
  pub jwt_algorithm : Option String
  pub jwt_expiry_seconds : Option ℤ
  pub cors_allow_origins : Option (List String)
  pub cors_allow_credentials : Option Bool
  pub max_result_rows : Option ℤ
  pub max_result_bytes : Option ℤ
  pub max_query_duration : Option Float
  pub fast_query_concurrency_limit : Option ℤ
  pub normal_query_concurrency_limit : Option ℤ
  pub expensive_query_concurrency_limit : Option ℤ
  pub auth_rate_limit_enabled : Option Bool
  pub auth_rate_limit_max_attempts : Option ℤ
  pub auth_rate_limit_window : Option Float
  pub maintenance_enabled : Option Bool
  pub maintenance_interval : Option Float
  pub otel_export_interval : Option Float
  pub cross_process_publish_interval : Option Float
  pub application_data_pool_min_size : Option ℤ
  pub application_data_pool_max_size : Option ℤ
  pub application_state_pool_min_size : Option ℤ
  pub application_state_pool_max_size : Option ℤ
  pub application_data_executor_workers : Option ℤ
  pub application_state_executor_workers : Option ℤ
  pub background_executor_workers : Option ℤ
  pub password_executor_workers : Option ℤ

-- A variable, or the default where it is not set.
abbrev pub get_or {ℓ} : {A : Type ℓ} → Option A → A → A
get_or none default = default
get_or (some a) default = a

abbrev pub plus_two : ℤ → ℤ
plus_two (pos n) = pos (n + 2)
plus_two (negsuc zero) = pos 1
plus_two (negsuc (suc zero)) = pos 0
plus_two (negsuc (suc (suc n))) = negsuc n

unfoldable pub default_pool_settings : ConcurrencySizing → PoolRuntimeSettings
default_pool_settings sizing = record {
  application_data_min_size = pos sizing.application_data_pool_min;
  application_data_max_size = pos sizing.application_data_pool_max;
  application_state_min_size = pos sizing.state_pool_min;
  application_state_max_size = pos sizing.state_pool_max;
  timeout = pos 30;
}

unfoldable pub default_executor_settings :
    ConcurrencySizing → PoolRuntimeSettings → ExecutorRuntimeSettings
default_executor_settings sizing pool = record {
  application_data_workers = plus_two pool.application_data_max_size;
  application_state_workers = plus_two pool.application_state_max_size;
  background_workers = pos sizing.background_executor_workers;
  password_workers = pos sizing.password_executor_workers;
}

unfoldable pub pool_from_env : ConcurrencySizing → Env → PoolRuntimeSettings
unfolding default_pool_settings
pool_from_env sizing env =
    let defaults = default_pool_settings sizing in
    record {
      application_data_min_size =
          get_or env.application_data_pool_min_size defaults.application_data_min_size;
      application_data_max_size =
          get_or env.application_data_pool_max_size defaults.application_data_max_size;
      application_state_min_size =
          get_or env.application_state_pool_min_size defaults.application_state_min_size;
      application_state_max_size =
          get_or env.application_state_pool_max_size defaults.application_state_max_size;
      timeout = defaults.timeout;
    }

unfoldable pub executors_from_env :
    ConcurrencySizing → PoolRuntimeSettings → Env → ExecutorRuntimeSettings
unfolding default_executor_settings
executors_from_env sizing pool env =
    let defaults = default_executor_settings sizing pool in
    record {
      application_data_workers =
          get_or env.application_data_executor_workers defaults.application_data_workers;
      application_state_workers =
          get_or env.application_state_executor_workers defaults.application_state_workers;
      background_workers = get_or env.background_executor_workers defaults.background_workers;
      password_workers = get_or env.password_executor_workers defaults.password_workers;
    }

-- A limit that the environment leaves open is derived from the processors.
abbrev pub settings : ConcurrencySizing → Env → AppSettings
settings sizing env =
    let pool = pool_from_env sizing env in
    record {
      jwt_secret_key = env.jwt_secret_key;
      jwt_algorithm = get_or env.jwt_algorithm "HS256";
      jwt_expiry_seconds = get_or env.jwt_expiry_seconds (pos 3600);
      cors_allow_origins = get_or env.cors_allow_origins ("*" ∷ []);
      cors_allow_credentials = get_or env.cors_allow_credentials false;
      max_result_rows = get_or env.max_result_rows (pos 10_000);
      max_result_bytes = get_or env.max_result_bytes (pos 10_485_760);
      max_query_duration = get_or env.max_query_duration (finite (pos (30 * one_second)));
      fast_query_concurrency_limit =
          some (get_or env.fast_query_concurrency_limit (pos sizing.fast_query_concurrency));
      normal_query_concurrency_limit =
          some (get_or env.normal_query_concurrency_limit (pos sizing.normal_query_concurrency));
      expensive_query_concurrency_limit =
          some
            (get_or env.expensive_query_concurrency_limit (pos sizing.expensive_query_concurrency));
      auth_rate_limit_enabled = get_or env.auth_rate_limit_enabled true;
      auth_rate_limit_max_attempts = get_or env.auth_rate_limit_max_attempts (pos 10);
      auth_rate_limit_window = get_or env.auth_rate_limit_window (finite (pos (60 * one_second)));
      maintenance_enabled = get_or env.maintenance_enabled true;
      maintenance_interval = get_or env.maintenance_interval (finite (pos (86_400 * one_second)));
      otel_export_interval = get_or env.otel_export_interval (finite (pos (15 * one_second)));
      cross_process_publish_interval =
          get_or env.cross_process_publish_interval (finite (pos (2 * one_second)));
      pool = pool;
      executors = executors_from_env sizing pool env;
    }

-- Each of the three is a RuntimeError.
pub data Refusal : Type 0 where
  missing_secret wildcard_credentials : Refusal
  invalid : List Problem → Refusal

pub data Loaded : Type 0 where
  loaded : AppSettings → Loaded
  refused : Refusal → Loaded

abbrev pub unless_invalid : AppSettings → List Problem → Loaded
unless_invalid s [] = loaded s
unless_invalid s (p ∷ ps) = refused (invalid (p ∷ ps))

-- `recommended_sizing()` is called with the count of `detect_cpu_count`.
unfoldable pub from_env : Host → Env → Bool → Loaded
from_env host env require_jwt_secret =
    if require_jwt_secret && is_missing env.jwt_secret_key
    then refused missing_secret
    else if get_or env.cors_allow_credentials false
        && contains (get_or env.cors_allow_origins ("*" ∷ [])) "*"
    then refused wildcard_credentials
    else (let s = settings (recommended_sizing (detect_cpu_count host)) env in
        unless_invalid s (validate s require_jwt_secret))
