-- ===== src/Services/Queries/Cached.antt =====
-- What a read of core/services/query_service.py answers, from a cache or from the database.
use mathlib.Core.Option
use salesinfo_api_v.Base.{
  ℕ, ◌+◌, ◌≤◌, ◌≡◌, refl, ap, ◌∙◌, arith, Bool, true, false, not, ◌&&◌, ◌||◌, ltb, leb, List, [],
  ◌∷◌, length, some,
}
use salesinfo_api_v.Services.ResultLimits.{
  QueryLimits, within_bytes, apply_result_limits, total_bytes, apply_result_limits_lem,
}
use salesinfo_api_v.Services.Streaming.Bounded.{fetch_bounded-apply_result_limits}
use salesinfo_api_v.Services.Queries.{
  QueryOutcome, batch_size, is_cached, fresh_truncated, outcome, run_read,
}
use salesinfo_api_v.Caching.Coordinator.Resolve.{
  Source, l1, l2, miss, Caches, Query, Codec, get_or_execute,
}
use salesinfo_api_v.Caching.Coordinator.Current.{IsCurrent}
use salesinfo_api_v.Caching.Coordinator.Answers.{get_or_execute_lem}

fresh_lem :
    (source : Source) (fresh cut : Bool)
    → cut ≡ false
    → (fresh_truncated source fresh || cut) ≡ (not (is_cached source) && fresh)
fresh_lem l1 fresh cut whole = whole
fresh_lem l2 fresh cut whole = whole
fresh_lem miss true cut whole = refl
fresh_lem miss false cut whole = whole

module _ {R : Type 0} (row_bytes : R → ℕ) where
  within_bytes-fits :
      (max_bytes total : ℕ) (rows : List R)
      → total + total_bytes row_bytes rows ≤ max_bytes
      → within_bytes row_bytes max_bytes total rows ≡ (rows, false)
  unfolding within_bytes
  within_bytes-fits max_bytes total [] fits = refl
  within_bytes-fits max_bytes total (r ∷ rs) fits =
      let under : ltb max_bytes (total + row_bytes r) ≡ false = ground arith in
      let rest = within_bytes-fits max_bytes (total + row_bytes r) rs (omega arith) in
      rw (under, rest) refl

  -- Rows that are within the limits are left as they are.
  apply_result_limits_idem :
      (limits : QueryLimits) (rows : List R)
      → apply_result_limits row_bytes limits (apply_result_limits row_bytes limits rows).0
        ≡ ((apply_result_limits row_bytes limits rows).0, false)
  unfolding apply_result_limits
  apply_result_limits_idem limits rows =
      let out = (apply_result_limits row_bytes limits rows).0 in
      let (cut, prefix, few, small, why) = apply_result_limits_lem row_bytes limits rows in
      let room : leb (length out) limits.max_result_rows ≡ true = ground arith in
      let kept = within_bytes-fits limits.max_result_bytes 0 out (omega arith) in rw room kept

module _ {K R : Type 0} (row_bytes : R → ℕ) (limits : QueryLimits) where
  -- What the limits leave of the contents of the database.
  abbrev pub limited : (K → List R) → K → List R
  limited db key = (apply_result_limits row_bytes limits (db key)).0

module _ {K R T S J U : Type 0} (dec : Discrete K) (dec_table : Discrete T)
    (codec : Codec (List R) J) (ttl : ℕ) (row_bytes : R → ℕ) (limits : QueryLimits) where
  -- If both levels of the cache, and the jobs that are pending for the second, agree with what the limits
  -- leave of the database, then a read is answered with what the limits leave of what the database has, a
  -- cache hit or not, and both levels still agree. But only a read that is no cache hit says that something
  -- was cut: the answer is marked as truncated exactly if the limits cut it and it comes from the database.
  pub run_read_lem :
      (db : K → List R) (s : Caches K (List R) T S J U) (q : Query K T S U) (now : ℕ)
      → IsCurrent dec dec_table codec ttl (limited row_bytes limits db) s
      → (after : Caches K (List R) T S J U) × (o : QueryOutcome R) × (run_read dec dec_table codec
            ttl row_bytes limits s q
            (db q.cache_key)
            now
          ≡ some (after, o))
        × (o.data_rows ≡ limited row_bytes limits db q.cache_key)
        × (o.truncated
            ≡ (not o.cached && (apply_result_limits row_bytes limits (db q.cache_key)).1))
        × IsCurrent dec dec_table codec ttl (limited row_bytes limits db) after
  unfolding run_read
  run_read_lem db s q now h =
      let streamed =
        fetch_bounded-apply_result_limits row_bytes limits batch_size (db q.cache_key)
          (omega arith) in
      let (after, source, done, current) =
        get_or_execute_lem dec dec_table codec ttl (limited row_bytes limits db) s q now h in
      let again = apply_result_limits_idem row_bytes limits (db q.cache_key) in
      let answer : Caches K (List R) T S J U × List R × Source
          → List R × Bool
          → Caches K (List R) T S J U × QueryOutcome R =
        λ r fresh. (r.0, outcome row_bytes limits r.1 r.2 fresh.1) in
      let cut = (apply_result_limits row_bytes limits (db q.cache_key)).1 in
      let ran =
        ap
          (λ (fresh : List R × Bool).
            Option.map (λ r. answer r fresh)
              (get_or_execute dec dec_table codec ttl s q fresh.0 now))
          streamed
        ∙ ap (Option.map (λ r. answer r (apply_result_limits row_bytes limits (db q.cache_key))))
            done in
      (
        after,
        outcome row_bytes limits (limited row_bytes limits db q.cache_key) source cut,
        ran,
        ap (λ p. p.0) again,
        fresh_lem source cut _ (ap (λ p. p.1) again),
        current,
      )
