-- ===== src/Configuration/Settings.antt =====
-- core/app/settings.py: the settings that `validate` looks at, and what it finds wrong. Whole
-- numbers may be negative; a float is a whole number of microseconds, an infinity, or not a number.
pub mod Environment
pub mod Validity
pub mod Ceilings
use text.Mathlib.Text.{◌==◌ as str_eq}
use salesinfo_api_v.Base.{
  ℕ, ◌+◌, ◌*◌, Bool, true, false, not, ◌&&◌, ◌||◌, if◌then◌else◌, List, [], ◌∷◌, ◌++◌, Option, none,
  some, String,
}
use salesinfo_api_v.Base.Int.{ℤ, pos, negsuc, lt_int, le_int}

-- What `float()` gives.
pub data Float : Type 0 where
  finite : ℤ → Float
  infinity minus_infinity nan : Float

-- `a <= b` and `a < b` against a number that is finite: nan is neither.
abbrev pub le_float : Float → ℤ → Bool
le_float (finite a) b = le_int a b
le_float infinity b = false
le_float minus_infinity b = true
le_float nan b = false

abbrev pub gt_float : Float → ℤ → Bool
gt_float (finite a) b = lt_int b a
gt_float infinity b = true
gt_float minus_infinity b = false
gt_float nan b = false

pub record PoolRuntimeSettings : Type 0 where
  pub application_data_min_size : ℤ
  pub application_data_max_size : ℤ
  pub application_state_min_size : ℤ
  pub application_state_max_size : ℤ
  pub timeout : ℤ

pub record ExecutorRuntimeSettings : Type 0 where
  pub application_data_workers : ℤ
  pub application_state_workers : ℤ
  pub background_workers : ℤ
  pub password_workers : ℤ

pub record AppSettings : Type 0 where
  pub jwt_secret_key : Option String
  pub jwt_algorithm : String
  pub jwt_expiry_seconds : ℤ
  pub cors_allow_origins : List String
  pub cors_allow_credentials : Bool
  pub max_result_rows : ℤ
  pub max_result_bytes : ℤ
  pub max_query_duration : Float
  pub fast_query_concurrency_limit : Option ℤ
  pub normal_query_concurrency_limit : Option ℤ
  pub expensive_query_concurrency_limit : Option ℤ
  pub auth_rate_limit_enabled : Bool
  pub auth_rate_limit_max_attempts : ℤ
  pub auth_rate_limit_window : Float
  pub maintenance_enabled : Bool
  pub maintenance_interval : Float
  pub otel_export_interval : Float
  pub cross_process_publish_interval : Float
  pub pool : PoolRuntimeSettings
  pub executors : ExecutorRuntimeSettings

-- The setting that an entry of `errors` names.
pub data Label : Type 0 where
  data_min data_max state_min state_max pool_timeout : Label
  data_workers state_workers background_workers password_workers : Label
  result_rows result_bytes query_duration fast_limit normal_limit expensive_limit : Label
  jwt_expiry rate_attempts rate_window maintenance otel_interval publish_interval : Label

pub data Problem : Type 0 where
  not_positive min_above : Label → Problem
  too_few_workers : Label → Problem
  outlasts_pool_timeout no_secret unknown_algorithm no_origins open_credentials : Problem

abbrev pub one_second : ℕ
one_second = 1_000_000

abbrev pub check : Bool → Problem → List Problem
check true problem = problem ∷ []
check false problem = []

abbrev pub positive : ℤ → Label → List Problem
positive value label = check (le_int value (pos 0)) (not_positive label)

abbrev pub positive_float : Float → Label → List Problem
positive_float value label = check (le_float value (pos 0)) (not_positive label)

abbrev pub positive_if_set : Option ℤ → Label → List Problem
positive_if_set none label = []
positive_if_set (some value) label = positive value label

abbrev pub min_max : ℤ → ℤ → Label → Label → List Problem
min_max low high low_label high_label =
    positive low low_label
    ++ (positive high high_label ++ check (lt_int high low) (min_above low_label))

-- `not self.jwt_secret_key`.
abbrev pub is_missing : Option String → Bool
is_missing none = true
is_missing (some secret) = str_eq secret ""

abbrev pub contains : List String → String → Bool
contains [] word = false
contains (x ∷ xs) word = str_eq x word || contains xs word

abbrev pub algorithms : List String
algorithms = "HS256" ∷ "HS384" ∷ "HS512" ∷ "RS256" ∷ "RS384" ∷ "RS512" ∷ []

abbrev pub is_empty : List String → Bool
is_empty [] = true
is_empty (x ∷ xs) = false

unfoldable pub pool_problems : PoolRuntimeSettings → List Problem
pool_problems p =
    min_max p.application_data_min_size p.application_data_max_size data_min data_max
    ++ (min_max p.application_state_min_size p.application_state_max_size state_min state_max
        ++ positive p.timeout pool_timeout)

unfoldable pub executor_problems : PoolRuntimeSettings → ExecutorRuntimeSettings → List Problem
executor_problems p e =
    positive e.application_data_workers data_workers
    ++ (positive e.application_state_workers state_workers
        ++ (positive e.background_workers background_workers
            ++ (positive e.password_workers password_workers
                ++ (check (lt_int e.application_data_workers p.application_data_max_size)
                      (too_few_workers data_workers)
                    ++ check (lt_int e.application_state_workers p.application_state_max_size)
                        (too_few_workers state_workers)))))

-- The pool's timeout is in seconds, the duration of a query in microseconds.
abbrev pub in_microseconds : ℤ → ℤ
in_microseconds (pos n) = pos (n * one_second)
in_microseconds (negsuc n) = negsuc (n * one_second + 999_999)

unfoldable pub query_problems : AppSettings → List Problem
query_problems s =
    positive s.max_result_rows result_rows
    ++ (positive s.max_result_bytes result_bytes
        ++ (positive_float s.max_query_duration query_duration
            ++ (check (gt_float s.max_query_duration (in_microseconds s.pool.timeout))
                  outlasts_pool_timeout
                ++ (positive_if_set s.fast_query_concurrency_limit fast_limit
                    ++ (positive_if_set s.normal_query_concurrency_limit normal_limit
                        ++ positive_if_set s.expensive_query_concurrency_limit expensive_limit)))))

unfoldable pub access_problems : AppSettings → Bool → List Problem
access_problems s require_jwt_secret =
    check (require_jwt_secret && is_missing s.jwt_secret_key) no_secret
    ++ (positive s.jwt_expiry_seconds jwt_expiry
        ++ (check (not (contains algorithms s.jwt_algorithm)) unknown_algorithm
            ++ (check (is_empty s.cors_allow_origins) no_origins
                ++ check (s.cors_allow_credentials && contains s.cors_allow_origins "*")
                    open_credentials)))

unfoldable pub interval_problems : AppSettings → List Problem
interval_problems s =
    (if s.auth_rate_limit_enabled
      then positive s.auth_rate_limit_max_attempts rate_attempts
        ++ positive_float s.auth_rate_limit_window rate_window
      else [])
    ++ ((if s.maintenance_enabled then positive_float s.maintenance_interval maintenance else [])
        ++ (positive_float s.otel_export_interval otel_interval
            ++ positive_float s.cross_process_publish_interval publish_interval))

-- The list `errors`; `validate` raises if it is not empty. The warnings go to the log.
unfoldable pub validate : AppSettings → Bool → List Problem
validate s require_jwt_secret =
    pool_problems s.pool
    ++ (executor_problems s.pool s.executors
        ++ (query_problems s ++ (access_problems s require_jwt_secret ++ interval_problems s)))
