-- ===== src/Caching/Coordinator/Resolve.antt =====
-- `get_or_execute` of core/caching/query_cache_coordinator.py for one caller that nothing interrupts, and what
-- `QueryService.run` of core/services/query_service.py does with it after a read and after a write. `encode`
-- and `decode` are `json.dumps` and `json.loads`. What it submits to the persistence queue is pending until
-- a worker has done it, in any order; the time to live of what it persists is `ttl`.
use mathlib.Core.Option
use salesinfo_api_v.Base.{
  ℕ, zero, suc, Bool, if◌then◌else◌, List, [], ◌∷◌, ◌++◌, Option, none, some,
}
use salesinfo_api_v.Caching.Lru.{hybrid_get, hybrid_put}
use salesinfo_api_v.Caching.ResultCache.{
  CacheRow, get_cached_result, record_access, cache_result, invalidate_cache,
}
use salesinfo_api_v.Caching.Coordinator.{
  QueryCacheCoordinator, tag_tables, invalidate_tables, clear_all,
}

pub data Source : Type 0 where
  l1 l2 miss : Source

-- A read as `run` makes it: its key, its text, and what `extract_tables` gives.
pub record Query (K T S U : Type 0) : Type 0 where
  pub cache_key : K
  pub sql : S
  pub tables : List T
  pub user_id : Option U

-- What is submitted to the persistence queue: `on_miss_persist(data)`, or `record_access`.
pub data Job (K V T S U : Type 0) : Type 0 where
  persists : Query K T S U → V → Job K V T S U
  touches : Query K T S U → Job K V T S U

-- The caches of both levels, and the jobs that no worker has done yet.
pub record Caches (K V T S J U : Type 0) : Type 0 where
  pub coordinator : QueryCacheCoordinator K V T
  pub rows : List (K × CacheRow S J U)
  pub pending : List (Job K V T S U)

-- What else the caches need.
pub record Codec (V J : Type 0) : Type 0 where
  pub encode : V → J
  pub decode : J → V
  pub is_empty : V → Bool

module _ {K V T S J U : Type 0} (dec : Discrete K) (dec_table : Discrete T) (codec : Codec V J)
    (ttl : ℕ) where
  -- Put into L1, and tag; `none` is the StopIteration of `put`.
  unfoldable pub fill_l1 : Caches K V T S J U → Query K T S U → V → ℕ → Option (Caches K V T S J U)
  fill_l1 s q value now =
      Option.map
        (λ filled. record s {
          coordinator =
              tag_tables dec dec_table (record s.coordinator { l1 = filled }) q.cache_key q.tables;
        })
        (hybrid_put dec s.coordinator.l1 q.cache_key value (some ttl) now)

  abbrev pub submit_persist_job : Job K V T S U → Caches K V T S J U → Caches K V T S J U
  submit_persist_job job s = record s { pending = s.pending ++ job ∷ [] }

  -- After a miss, unless there is no row.
  abbrev pub persist : Query K T S U → V → Caches K V T S J U → Caches K V T S J U
  persist q value s = if codec.is_empty value then s else submit_persist_job (persists q value) s

  -- What a worker does with a job.
  unfoldable pub run_job : Job K V T S U → ℕ → Caches K V T S J U → Caches K V T S J U
  run_job (persists q value) now s = record s {
    rows = cache_result dec s.rows q.cache_key q.sql (codec.encode value) q.user_id ttl now;
  }
  run_job (touches q) now s = record s { rows = record_access dec s.rows q.cache_key now }

  abbrev pub job_at : ℕ → List (Job K V T S U) → Option (Job K V T S U)
  job_at i [] = none
  job_at zero (job ∷ jobs) = some job
  job_at (suc i) (job ∷ jobs) = job_at i jobs

  abbrev pub remove_at : ℕ → List (Job K V T S U) → List (Job K V T S U)
  remove_at i [] = []
  remove_at zero (job ∷ jobs) = jobs
  remove_at (suc i) (job ∷ jobs) = job ∷ remove_at i jobs

  -- A job that is dropped by a full queue, fails, or is cancelled.
  abbrev pub lose : ℕ → Caches K V T S J U → Caches K V T S J U
  lose i s = record s { pending = remove_at i s.pending }

  -- A job that is done.
  unfoldable pub land : ℕ → ℕ → Caches K V T S J U → Caches K V T S J U
  unfolding run_job
  land i now s = elim (job_at i s.pending) [ none ↦ s | some job ↦ run_job job now (lose i s) ]

  -- `fresh` is what `run_query` gives.
  unfoldable pub resolve :
      Caches K V T S J U → Query K T S U → V → ℕ → Option (Caches K V T S J U × V × Source)
  resolve s q fresh now = elim (get_cached_result dec s.rows q.cache_key now) [
    | some row ↦
        Option.map
          (λ filled. (submit_persist_job (touches q) filled, codec.decode row.result_data, l2))
          (fill_l1 s q (codec.decode row.result_data) now)
    | none ↦ Option.map (λ filled. (persist q fresh filled, fresh, miss)) (fill_l1 s q fresh now)
  ]

  unfoldable pub get_or_execute :
      Caches K V T S J U → Query K T S U → V → ℕ → Option (Caches K V T S J U × V × Source)
  get_or_execute s q fresh now =
      let g = hybrid_get dec s.coordinator.l1 q.cache_key now in
      let after = record s { coordinator = record s.coordinator { l1 = g.0 } } in
      elim g.1 [ some cached ↦ some (after, cached, l1) | none ↦ resolve after q fresh now ]

module _ {K T S J U : Type 0} (dec_user : Discrete U) (like : S → S → Bool) (name : T → S) where
  -- L2 is told of one table after another.
  abbrev pub invalidate_rows : List T → List (K × CacheRow S J U) → List (K × CacheRow S J U)
  invalidate_rows [] rows = rows
  invalidate_rows (table ∷ tables) rows =
      invalidate_rows tables (invalidate_cache dec_user like rows (some (name table)) none)

module _ {K V T S J U : Type 0} (dec : Discrete K) (dec_table : Discrete T) where
  abbrev pub clear_caches : Caches K V T S J U → Caches K V T S J U
  clear_caches s = record s { coordinator = clear_all dec dec_table s.coordinator; rows = [] }

module _ {K V T S J U : Type 0} (dec : Discrete K) (dec_table : Discrete T) (dec_user : Discrete U)
    (like : S → S → Bool) (name : T → S) where
  -- `_invalidate_after_write`, for a statement with the given tables.
  unfoldable pub invalidate_after_write : Bool → Caches K V T S J U → List T → Caches K V T S J U
  invalidate_after_write precise s tables =
      let r = invalidate_tables dec dec_table s.coordinator tables in
      let narrowed = record s {
        coordinator = r.0;
        rows = invalidate_rows dec_user like name r.2 s.rows;
      } in
      if precise
      then (if r.1 then narrowed else clear_caches dec dec_table (record s { coordinator = r.0 }))
      else clear_caches dec dec_table s
