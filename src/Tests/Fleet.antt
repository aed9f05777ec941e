-- ===== src/Tests/Fleet.antt =====
-- Two workers of core/performance/dashboard/merge.py at concrete inputs. Names and tags are numbers.
use mathlib.Core.Option
use salesinfo_api_v.Base.{ℕ, ap, ◌≡◌, refl, Bool, List, [], ◌∷◌, map, some, ℕ_discrete, ◌==◌}
use salesinfo_api_v.Base.Dict.{lookup, assign}
use salesinfo_api_v.Performance.Histogram.{
  Histogram, init, ascending, observe, observe_all, bump, bisect_left,
}
use salesinfo_api_v.Performance.Histogram.Percentile.{
  Quantile, Locates, between, walk, percentile_from_buckets,
}
use salesinfo_api_v.Performance.Merge.{
  Snapshot, Summary, zip_add, combine, merge_counters, merge_gauges, merge_histogram,
  merge_histograms, merge_snapshot, merge_snapshots, result, merge_performance_summaries,
}
use salesinfo_api_v.Performance.Merge.Combine.{fresh}
use salesinfo_api_v.Performance.Merge.Fleet.{
  values_of, snapshot_of, all_observed, merge_performance_summaries_lem,
}

abbrev dec_key : Discrete (ℕ × ℕ)
dec_key a b = elim (ℕ_discrete a.0 b.0) [
  | no other ↦ no (λ e. other (ap (λ (k : ℕ × ℕ). k.0) e))
  | yes same_name ↦ elim (ℕ_discrete a.1 b.1) [
    | no other ↦ no (λ e. other (ap (λ (k : ℕ × ℕ). k.1) e))
    | yes same_tags ↦ yes (λ i. (same_name i, same_tags i))
  ]
]

-- What the tests compute with.
code : Unit {0}
unfolding lookup assign ℕ_discrete init ascending observe observe_all bump bisect_left walk
    percentile_from_buckets zip_add combine merge_counters merge_gauges merge_histogram
    merge_histograms merge_snapshot merge_snapshots result merge_performance_summaries
code = tt

abbrev bounds : List ℕ
bounds = 1 ∷ 2 ∷ 4 ∷ []

abbrev worker : ℕ → ℕ → Snapshot ℕ ℕ ℕ
worker id requests = record {
  request_count = requests;
  total_requests_recorded = requests;
  max_request_history = 50;
  counters = ((1, 0), requests) ∷ [];
  gauges = ((2, 0), 3) ∷ [];
  histograms = [];
  recent_requests = [];
  worker_id = some id;
}

-- Name 5 is observed by both workers, name 6 by the second one only.
abbrev fleet : List (Snapshot ℕ ℕ ℕ × List ((ℕ × ℕ) × List ℕ))
fleet =
    (worker 1 2, ((5, 0), 500_000 ∷ 1_500_000 ∷ []) ∷ [])
    ∷ (worker 2 3, ((6, 0), 9_000_000 ∷ []) ∷ ((5, 0), 3_000_000 ∷ []) ∷ [])
    ∷ []

is_host_level : ℕ → Bool
is_host_level name = name == 7

init-bounds : init bounds ≡ some (fresh bounds)
unfolding code
init-bounds = refl

merged_test :
    Option.map
      (λ (s : Summary ℕ ℕ ℕ). s.merged.counters)
      (merge_performance_summaries dec_key is_host_level (map (snapshot_of bounds) fleet) 20)
    ≡ some (((1, 0), 5) ∷ [])
unfolding code
merged_test = refl

median_test :
    percentile_from_buckets bounds
      (observe_all (fresh bounds) (500_000 ∷ 1_500_000 ∷ 3_000_000 ∷ [])).bucket_counts
      (record { num = 50; den = 100 })
    ≡ between 1 2 50 100
unfolding code
median_test = refl

merge_performance_summaries_lem_example :
    (out : Summary ℕ ℕ ℕ) × (merge_performance_summaries dec_key is_host_level
        (map (snapshot_of bounds) fleet)
        20
      ≡ some out)
    × ((k : ℕ × ℕ)
        → lookup dec_key k out.merged.histograms
          ≡ Option.map (observe_all (fresh bounds)) (values_of dec_key k (all_observed fleet)))
    × ((k : ℕ × ℕ) (vs : List ℕ) (q : Quantile)
        → values_of dec_key k (all_observed fleet) ≡ some vs
        → (merged : Histogram) × (lookup dec_key k out.merged.histograms ≡ some merged)
          × Locates q vs (percentile_from_buckets merged.bucket_bounds merged.bucket_counts q))
merge_performance_summaries_lem_example =
    merge_performance_summaries_lem dec_key is_host_level bounds (fresh bounds) fleet 20 init-bounds
