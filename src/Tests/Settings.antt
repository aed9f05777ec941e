-- ===== src/Tests/Settings.antt =====
-- The settings and the sizes of core/app/settings.py and core/concurrency/cpu.py at concrete inputs.
use text.Mathlib.TextEquality.{eq_iff}
use salesinfo_api_v.Base.{String, ◌≡◌, ◌≢◌, ◌≤◌, refl, true, arith, [], ◌∷◌, none, some}
use salesinfo_api_v.Base.Int.{pos}
use salesinfo_api_v.Configuration.Sizing.{Host, detect_cpu_count, recommended_sizing}
use salesinfo_api_v.Configuration.Settings.{
  nan, finite, AppSettings, validate, pool_problems, executor_problems, query_problems,
  access_problems, interval_problems, outlasts_pool_timeout, min_above, data_min,
}
use salesinfo_api_v.Configuration.Settings.Environment.{
  plus_two, default_pool_settings, default_executor_settings, pool_from_env, executors_from_env,
  settings, loaded, refused, invalid, missing_secret, from_env,
}
use salesinfo_api_v.Configuration.Settings.Validity.{IsUsable, from_env-IsUsable}
use salesinfo_api_v.Configuration.Settings.Ceilings.{ceilings, from_env-ceilings}

-- Eight processors, of which a quota leaves four and a half.
abbrev limited : Host
limited = record {
  affinity = some 8;
  cpu_max = some (some (450_000, 100_000));
  cfs_quota = none;
  cfs_period = none;
  cpu_count = some 16;
}

-- What the tests compute with.
code : Unit {0}
unfolding detect_cpu_count recommended_sizing validate pool_problems executor_problems
    query_problems access_problems interval_problems default_pool_settings default_executor_settings
    pool_from_env executors_from_env from_env ceilings
code = tt

count_test : detect_cpu_count limited ≡ 4
unfolding code
count_test = refl

abbrev four : AppSettings
four = settings (recommended_sizing 4) (ceilings "secret" none none)

from_env-four : from_env limited (ceilings "secret" none none) true ≡ loaded four
unfolding code
from_env-four = refl

from_env-IsUsable_example : IsUsable four true × (four.pool.timeout ≡ pos 30)
from_env-IsUsable_example =
    from_env-IsUsable limited (ceilings "secret" none none) true four from_env-four

no_secret_test : from_env limited (ceilings "" none none) true ≡ refused missing_secret
unfolding code
no_secret_test = refl

-- A ceiling below the floor of 2, and a query that may last longer than the wait for a connection.
low_ceiling_test :
    from_env limited (ceilings "secret" (some 1) none) true
    ≡ refused (invalid (min_above data_min ∷ []))
unfolding code
low_ceiling_test = refl

long_query_test :
    from_env limited
      (record (ceilings "secret" none none) { max_query_duration = some (finite (pos 31_000_000)) })
      true
    ≡ refused (invalid (outlasts_pool_timeout ∷ []))
unfolding code
long_query_test = refl

-- Neither `nan <= 0` nor `nan > 30` holds.
nan_test :
    from_env limited (record (ceilings "secret" none none) { max_query_duration = some nan }) true
    ≡ loaded (record four { max_query_duration = nan })
unfolding code
nan_test = refl

abbrev empty_text : String
empty_text = ""

abbrev secret : String
secret = "secret"

secret-ne : secret ≢ empty_text
secret-ne h = ground (arith, eq_iff secret empty_text, h)

floor-le : (recommended_sizing (detect_cpu_count limited)).application_data_pool_min ≤ 40
unfolding code
floor-le = omega arith

from_env-ceilings_example :
    (s : AppSettings) × (from_env limited (ceilings "secret" (some 40) none) true ≡ loaded s)
    × (s.executors.application_data_workers ≡ plus_two s.pool.application_data_max_size)
    × (s.executors.application_state_workers ≡ plus_two s.pool.application_state_max_size)
from_env-ceilings_example = from_env-ceilings limited "secret" (some 40) none secret-ne floor-le tt
