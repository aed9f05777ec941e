-- ===== src/Services/Queries.antt =====
-- `QueryService.run` of core/services/query_service.py for a statement that reads and that nothing
-- interrupts: the query cache, the cursor and the result limits put together. The limits do not change
-- while it runs.
pub mod Cached
use mathlib.Core.Option
use salesinfo_api_v.Base.{ℕ, Bool, true, false, ◌||◌, List, Option}
use salesinfo_api_v.Services.ResultLimits.{QueryLimits, apply_result_limits}
use salesinfo_api_v.Services.Streaming.{fetch_bounded}
use salesinfo_api_v.Caching.Coordinator.Resolve.{
  Source, l1, l2, miss, Caches, Query, Codec, get_or_execute,
}

pub record QueryOutcome (R : Type 0) : Type 0 where
  pub data_rows : List R
  pub cached : Bool
  pub truncated : Bool

-- The default of `fetch_bounded`.
abbrev pub batch_size : ℕ
batch_size = 500

abbrev pub is_cached : Source → Bool
is_cached l1 = true
is_cached l2 = true
is_cached miss = false

-- What `fresh_truncated` is in the end: only a miss sets it.
abbrev pub fresh_truncated : Source → Bool → Bool
fresh_truncated l1 flag = false
fresh_truncated l2 flag = false
fresh_truncated miss flag = flag

module _ {R : Type 0} (row_bytes : R → ℕ) (limits : QueryLimits) where
  abbrev pub outcome : List R → Source → Bool → QueryOutcome R
  outcome found source flag =
      let limited = apply_result_limits row_bytes limits found in
      record {
        data_rows = limited.0;
        cached = is_cached source;
        truncated = fresh_truncated source flag || limited.1;
      }

module _ {K R T S J U : Type 0} (dec : Discrete K) (dec_table : Discrete T)
    (codec : Codec (List R) J) (ttl : ℕ) (row_bytes : R → ℕ) (limits : QueryLimits) where
  -- `rows` is what the database has for the statement.
  unfoldable pub run_read :
      Caches K (List R) T S J U
      → Query K T S U
      → List R
      → ℕ
      → Option (Caches K (List R) T S J U × QueryOutcome R)
  unfolding get_or_execute fetch_bounded apply_result_limits
  run_read s q rows now =
      let fresh = fetch_bounded row_bytes limits batch_size rows in
      Option.map (λ r. (r.0, outcome row_bytes limits r.1 r.2 fresh.1))
        (get_or_execute dec dec_table codec ttl s q fresh.0 now)
