-- ===== src/Performance/Merge.antt =====
-- core/performance/dashboard/merge.py: the summaries of the workers put together. `N × T` is a name with
-- its sorted tuple of tags. A gauge is not negative here; a recent request is a value of `R`, with the id
-- of its worker where the snapshot has one.
pub mod Combine
pub mod Fleet
use salesinfo_api_v.Base.{
  ℕ, ◌+◌, ◌*◌, ◌==◌, Bool, true, false, ◌&&◌, if◌then◌else◌, List, [], ◌∷◌, ◌++◌, map, Option, none,
  some, min, max, length, take, ltb,
}
use salesinfo_api_v.Base.Dict.{lookup, assign}
use salesinfo_api_v.Performance.Histogram.{Histogram, nanoseconds_per_millisecond}
use salesinfo_api_v.Performance.Histogram.Percentile.{
  Quantile, Estimate, nothing, mismatch, exactly, beyond, between, percentile_from_buckets,
}

pub record Snapshot (N T R : Type 0) : Type 0 where
  pub request_count : ℕ
  pub total_requests_recorded : ℕ
  pub max_request_history : ℕ
  pub counters : List ((N × T) × ℕ)
  pub gauges : List ((N × T) × ℕ)
  pub histograms : List ((N × T) × Histogram)
  pub recent_requests : List R
  pub worker_id : Option ℕ

-- The dictionaries of the loop over the snapshots.
pub record Merged (N T R : Type 0) : Type 0 where
  pub request_count : ℕ
  pub total_requests_recorded : ℕ
  pub max_request_history : ℕ
  pub counters : List ((N × T) × ℕ)
  pub gauges : List ((N × T) × ℕ)
  pub histograms : List ((N × T) × Histogram)
  pub recent_requests : List (R × Option ℕ)

abbrev pub start : {N T R : Type 0} → Merged N T R
start = record {
  request_count = 0;
  total_requests_recorded = 0;
  max_request_history = 0;
  counters = [];
  gauges = [];
  histograms = [];
  recent_requests = [];
}

abbrev pub same_bounds : List ℕ → List ℕ → Bool
same_bounds [] [] = true
same_bounds (a ∷ xs) (b ∷ ys) = a == b && same_bounds xs ys
same_bounds _ _ = false

-- `[a + b for a, b in zip(..., strict=True)]`, `none` where it raises.
unfoldable pub zip_add : List ℕ → List ℕ → Option (List ℕ)
zip_add [] [] = some []
zip_add (a ∷ xs) (b ∷ ys) = elim (zip_add xs ys) [ none ↦ none | some zs ↦ some ((a + b) ∷ zs) ]
zip_add _ _ = none

-- One extreme against another, where either may be missing.
abbrev pub extreme : (ℕ → ℕ → ℕ) → Option ℕ → Option ℕ → Option ℕ
extreme pick existing none = existing
extreme pick none (some b) = some b
extreme pick (some a) (some b) = some (pick a b)

abbrev pub combined : Histogram → Histogram → List ℕ → Histogram
combined existing hist counts = record {
  bucket_bounds = existing.bucket_bounds;
  bucket_counts = counts;
  count = existing.count + hist.count;
  total = existing.total + hist.total;
  minimum = extreme min existing.minimum hist.minimum;
  maximum = extreme max existing.maximum hist.maximum;
}

-- With other bounds the histogram that came first is kept.
unfoldable pub combine : Histogram → Histogram → Option Histogram
unfolding zip_add
combine existing hist =
    if same_bounds existing.bucket_bounds hist.bucket_bounds
    then elim (zip_add existing.bucket_counts hist.bucket_counts) [
      | none ↦ none
      | some counts ↦ some (combined existing hist counts)
    ]
    else some existing

module _ {N T : Type 0} (dec_key : Discrete (N × T)) where
  unfoldable pub merge_counters : List ((N × T) × ℕ) → List ((N × T) × ℕ) → List ((N × T) × ℕ)
  merge_counters merged [] = merged
  merge_counters merged (c ∷ cs) =
      merge_counters
        (elim (lookup dec_key c.0 merged) [
          | none ↦ assign dec_key c.0 c.1 merged
          | some value ↦ assign dec_key c.0 (value + c.1) merged
        ])
        cs

  -- `is_host_level` is membership of the name in `HOST_LEVEL_GAUGES`.
  unfoldable pub merge_gauges :
      (N → Bool) → List ((N × T) × ℕ) → List ((N × T) × ℕ) → List ((N × T) × ℕ)
  merge_gauges is_host_level merged [] = merged
  merge_gauges is_host_level merged (g ∷ gs) =
      merge_gauges is_host_level
        (elim (lookup dec_key g.0 merged) [
          | none ↦ assign dec_key g.0 g.1 merged
          | some value ↦
              assign dec_key g.0 (if is_host_level g.0.0 then max value g.1 else value + g.1) merged
        ])
        gs

  unfoldable pub merge_histogram :
      List ((N × T) × Histogram) → (N × T) × Histogram → Option (List ((N × T) × Histogram))
  unfolding combine
  merge_histogram merged h = elim (lookup dec_key h.0 merged) [
    | none ↦ some (assign dec_key h.0 h.1 merged)
    | some existing ↦ elim (combine existing h.1) [
      | none ↦ none
      | some both ↦ some (assign dec_key h.0 both merged)
    ]
  ]

  unfoldable pub merge_histograms :
      List ((N × T) × Histogram) → List ((N × T) × Histogram) → Option (List ((N × T) × Histogram))
  unfolding merge_histogram
  merge_histograms merged [] = some merged
  merge_histograms merged (h ∷ hs) = elim (merge_histogram merged h) [
    | none ↦ none
    | some next ↦ merge_histograms next hs
  ]

module _ {N T R : Type 0} (dec_key : Discrete (N × T)) (is_host_level : N → Bool) where
  abbrev pub added : Merged N T R → Snapshot N T R → List ((N × T) × Histogram) → Merged N T R
  added m s histograms = record {
    request_count = m.request_count + s.request_count;
    total_requests_recorded = m.total_requests_recorded + s.total_requests_recorded;
    max_request_history = max m.max_request_history s.max_request_history;
    counters = merge_counters dec_key m.counters s.counters;
    gauges = merge_gauges dec_key is_host_level m.gauges s.gauges;
    histograms = histograms;
    recent_requests = m.recent_requests ++ map (λ r. (r, s.worker_id)) s.recent_requests;
  }

  unfoldable pub merge_snapshot : Merged N T R → Snapshot N T R → Option (Merged N T R)
  unfolding merge_counters merge_gauges merge_histograms
  merge_snapshot m s = elim (merge_histograms dec_key m.histograms s.histograms) [
    | none ↦ none
    | some histograms ↦ some (added m s histograms)
  ]

  unfoldable pub merge_snapshots : Merged N T R → List (Snapshot N T R) → Option (Merged N T R)
  unfolding merge_snapshot
  merge_snapshots m [] = some m
  merge_snapshots m (s ∷ ss) = elim (merge_snapshot m s) [
    | none ↦ none
    | some next ↦ merge_snapshots next ss
  ]

-- An estimate in milliseconds, in nanoseconds.
abbrev pub in_nanoseconds : Estimate → Estimate
in_nanoseconds nothing = nothing
in_nanoseconds mismatch = mismatch
in_nanoseconds (exactly b) = exactly (b * nanoseconds_per_millisecond)
in_nanoseconds (beyond b) = beyond (b * nanoseconds_per_millisecond)
in_nanoseconds (between a b n d) =
    between (a * nanoseconds_per_millisecond) (b * nanoseconds_per_millisecond) n d

abbrev pub quantiles : List Quantile
quantiles =
    record { num = 50; den = 100 }
    ∷ record { num = 90; den = 100 }
    ∷ record { num = 95; den = 100 }
    ∷ record { num = 99; den = 100 }
    ∷ []

-- The mean is `total / count`, if there is a count.
pub record Result (N T : Type 0) : Type 0 where
  pub key : N × T
  pub count : ℕ
  pub total : ℕ
  pub mean : Option (ℕ × ℕ)
  pub minimum : Option ℕ
  pub maximum : Option ℕ
  pub estimates : List Estimate

unfoldable pub result : {N T : Type 0} → (N × T) × Histogram → Result N T
unfolding percentile_from_buckets
result e = record {
  key = e.0;
  count = e.1.count;
  total = e.1.total;
  mean = if e.1.count == 0 then none else some (e.1.total, e.1.count);
  minimum = e.1.minimum;
  maximum = e.1.maximum;
  estimates =
      map (λ q. in_nanoseconds (percentile_from_buckets e.1.bucket_bounds e.1.bucket_counts q))
        quantiles;
}

-- `recent_requests[:recent_limit]`; the limit is not negative here.
pub record Summary (N T R : Type 0) : Type 0 where
  pub merged : Merged N T R
  pub histograms : List (Result N T)
  pub recent_requests : List (R × Option ℕ)
  pub worker_count : ℕ

-- `none` is the ValueError of buckets that do not fit their bounds.
unfoldable pub merge_performance_summaries :
    {N T R : Type 0}
    → Discrete (N × T)
    → (N → Bool)
    → List (Snapshot N T R)
    → ℕ
    → Option (Summary N T R)
unfolding merge_snapshots result
merge_performance_summaries dec_key is_host_level snapshots recent_limit =
    elim (merge_snapshots dec_key is_host_level start snapshots) [
      | none ↦ none
      | some m ↦ some (record {
        merged = m;
        histograms = map result m.histograms;
        recent_requests = take recent_limit m.recent_requests;
        worker_count = length snapshots;
      })
    ]
