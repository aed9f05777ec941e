-- ===== src/Configuration/Sizing.antt =====
-- core/concurrency/cpu.py: the number of usable processors and the sizes that follow from it. What
-- the operating system answers is the record `Host`.
use salesinfo_api_v.Base.{
  ℕ, ◌+◌, ◌*◌, ◌/◌, ◌≤◌, ◌<◌, ◌≡◌, refl, arith, ltb, if◌then◌else◌, Option, none, some, min, max,
  Option-cases, inl, inr,
}
use salesinfo_api_v.Base.Int.{ℤ, pos, negsuc}

-- `none` is a call that is missing or raises, or a file that is missing or not understood. In
-- `cpu_max` the inner `none` is the word "max"; a limit comes with its period, which is not 0.
pub record Host : Type 0 where
  pub affinity : Option ℕ
  pub cpu_max : Option (Option (ℕ × ℕ))
  pub cfs_quota : Option ℤ
  pub cfs_period : Option ℕ
  pub cpu_count : Option ℕ

-- `max(1, int(quota / period))`.
whole_cpus : ℕ → ℕ → ℕ
whole_cpus quota period = max 1 (quota / period)

-- cgroup v1, where a quota that is not positive means no limit.
quota_v1 : Option ℤ → Option ℕ → Option ℕ
unfolding whole_cpus
quota_v1 none period = none
quota_v1 (some (negsuc n)) period = none
quota_v1 (some (pos n)) none = none
quota_v1 (some (pos n)) (some period) = if ltb 0 n then some (whole_cpus n period) else none

cgroup_cpu_quota : Host → Option ℕ
unfolding whole_cpus quota_v1
cgroup_cpu_quota h = elim h.cpu_max [
  | none ↦ quota_v1 h.cfs_quota h.cfs_period
  | some limit ↦ elim limit [
    | none ↦ quota_v1 h.cfs_quota h.cfs_period
    | some l ↦ some (whole_cpus l.0 l.1)
  ]
]

-- The lower of the two counts.
combined : Option ℕ → Option ℕ → Option ℕ
combined count none = count
combined none (some quota) = some quota
combined (some count) (some quota) = some (min count quota)

-- `max(1, count or 1)`.
at_least_one : Option ℕ → ℕ
at_least_one none = 1
at_least_one (some n) = max 1 n

unfoldable pub detect_cpu_count : Host → ℕ
unfolding cgroup_cpu_quota combined at_least_one
detect_cpu_count h = elim (combined h.affinity (cgroup_cpu_quota h)) [
  | none ↦ at_least_one h.cpu_count
  | some n ↦ at_least_one (some n)
]

pub record ConcurrencySizing : Type 0 where
  pub cpu_count : ℕ
  pub application_data_pool_min : ℕ
  pub application_data_pool_max : ℕ
  pub state_pool_min : ℕ
  pub state_pool_max : ℕ
  pub application_data_executor_workers : ℕ
  pub application_state_executor_workers : ℕ
  pub background_executor_workers : ℕ
  pub password_executor_workers : ℕ
  pub fast_query_concurrency : ℕ
  pub normal_query_concurrency : ℕ
  pub expensive_query_concurrency : ℕ

unfoldable pub recommended_sizing : ℕ → ConcurrencySizing
recommended_sizing n = record {
  cpu_count = n;
  application_data_pool_min = max 2 (n / 2);
  application_data_pool_max = max 4 (n * 2);
  state_pool_min = max 2 (n / 2);
  state_pool_max = max 4 (n * 2);
  application_data_executor_workers = max 4 n + 2;
  application_state_executor_workers = max 4 (n * 2) + 2;
  background_executor_workers = max 2 n;
  password_executor_workers = max 2 n;
  fast_query_concurrency = max 20 (n * 25);
  normal_query_concurrency = max 8 (n * 10);
  expensive_query_concurrency = max 2 n;
}

-- The count is at least 1, and at most a limit that the kernel sets on the process.
detect_cpu_count_bounds :
    (h : Host) (quota : ℕ)
    → cgroup_cpu_quota h ≡ some quota
    → (1 ≤ detect_cpu_count h) × (detect_cpu_count h ≤ max 1 quota)
unfolding detect_cpu_count
detect_cpu_count_bounds h quota e = elim (Option-cases h.affinity) [
  | inl none_known ↦ rw (e, none_known, detect_cpu_count, combined, at_least_one) (omega arith)
  | inr (count, known) ↦ rw (e, known, detect_cpu_count, combined, at_least_one) (omega arith)
]

-- From 4 processors on, the fallback number of threads for application data is below the ceiling of the
-- connections that they use; the one for the application state is always two above its own.
pub recommended_sizing_lem :
    (n : ℕ)
    → let s = recommended_sizing n in
      (s.application_state_executor_workers ≡ s.state_pool_max + 2)
      × (4 ≤ n → s.application_data_executor_workers < s.application_data_pool_max)
unfolding recommended_sizing
recommended_sizing_lem n = (refl, λ h. omega arith)
