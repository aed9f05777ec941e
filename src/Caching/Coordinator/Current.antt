-- ===== src/Caching/Coordinator/Current.antt =====
-- What the caches answer: core/caching/query_cache_coordinator.py with both levels.

use salesinfo_api_v.Base.{
  ℕ, ◌<◌, ◌≡◌, inl, inr, refl, sym, subst, zero, suc, ◌∙◌, All-append, Option, arith, List, [], ◌∷◌,
  some, All, Bool-cases, Option-cases,
}
use salesinfo_api_v.Base.Dict.{lookup}
use salesinfo_api_v.Caching.Coordinator.Entries.{
  All-assign, All-lookup, IsCurrentEntry, put-All, hybrid_put-some,
}
use salesinfo_api_v.Caching.ResultCache.{CacheRow, get_cached_result, cache_result}
use salesinfo_api_v.Caching.ResultCache
use salesinfo_api_v.Caching.Coordinator.{QueryCacheCoordinator, tag_tables}
use salesinfo_api_v.Caching.Coordinator.Resolve.{
  Source, l2, miss, Caches, Query, Codec, Job, persists, touches, fill_l1, persist, resolve,
  submit_persist_job, run_job, remove_at, job_at, lose, land,
}

module _ {K V T : Type 0} (dec : Discrete K) (dec_table : Discrete T) where
  pub tag_tables-l1 :
      (c : QueryCacheCoordinator K V T) (key : K) (tables : List T)
      → (tag_tables dec dec_table c key tables).l1 ≡ c.l1
  unfolding tag_tables
  tag_tables-l1 c key [] = refl
  tag_tables-l1 c key (t ∷ ts) = refl

module _ {K V T S J U : Type 0} (dec : Discrete K) (dec_table : Discrete T) (codec : Codec V J)
    (ttl : ℕ) (db : K → V) where
  abbrev IsCurrentRow : K × CacheRow S J U → Type 0
  IsCurrentRow e = codec.decode e.1.result_data ≡ db e.0

  abbrev pub IsCurrentJob : Job K V T S U → Type 0
  IsCurrentJob (persists q value) = value ≡ db q.cache_key
  IsCurrentJob (touches q) = Unit

  -- Both levels, and the jobs that are pending, have what the database has, and L1 has room for an entry
  -- at all.
  pub record IsCurrent (s : Caches K V T S J U) : Type 0 where
    pub room : 0 < s.coordinator.l1.store.max_size
    pub entries : All (IsCurrentEntry dec db) s.coordinator.l1.store.cache
    pub rows : All IsCurrentRow s.rows
    pub pending : All IsCurrentJob s.pending

  fill_l1_lem :
      (s : Caches K V T S J U) (q : Query K T S U) (now : ℕ)
      → IsCurrent s
      → (after : Caches K V T S J U) × (fill_l1 dec dec_table codec ttl s q (db q.cache_key) now
          ≡ some after)
        × IsCurrent after
  unfolding fill_l1
  fill_l1_lem s q now h =
      let cache = s.coordinator.l1 in
      let (store, stored, entries, same) =
        put-All dec db cache.store q.cache_key (some ttl) now h.room h.entries in
      let filled : QueryCacheCoordinator K V T = record s.coordinator {
        l1 = record cache { store = store };
      } in
      let kept = tag_tables-l1 dec dec_table filled q.cache_key q.tables in
      (
        record s { coordinator = tag_tables dec dec_table filled q.cache_key q.tables },
        rw (hybrid_put-some dec cache q.cache_key (db q.cache_key) ttl now store stored, fill_l1)
            refl,
        record {
          room = subst (λ c. 0 < c.store.max_size) (sym kept) (omega (arith, same, h.room));
          entries = subst (λ c. All (IsCurrentEntry dec db) c.store.cache) (sym kept) entries;
          rows = h.rows;
          pending = h.pending;
        },
      )

  submit_persist_job-IsCurrent :
      (job : Job K V T S U) (s : Caches K V T S J U)
      → IsCurrentJob job
      → IsCurrent s
      → IsCurrent (submit_persist_job dec dec_table codec ttl job s)
  submit_persist_job-IsCurrent job s now h = record {
    room = h.room;
    entries = h.entries;
    rows = h.rows;
    pending = All-append IsCurrentJob s.pending (job ∷ []) h.pending (now, tt);
  }

  persist-IsCurrent :
      (q : Query K T S U) (s : Caches K V T S J U)
      → IsCurrent s
      → IsCurrent (persist dec dec_table codec ttl q (db q.cache_key) s)
  persist-IsCurrent q s h = elim (Bool-cases (codec.is_empty (db q.cache_key))) [
    | inl empty ↦ rw empty h
    | inr full ↦ rw full (submit_persist_job-IsCurrent (persists q (db q.cache_key)) s refl h)
  ]

  record_access-IsCurrentRow :
      (rows : List (K × CacheRow S J U)) (key : K) (now : ℕ)
      → All IsCurrentRow rows
      → All IsCurrentRow (ResultCache.record_access dec rows key now)
  unfolding ResultCache.record_access
  record_access-IsCurrentRow rows key now h = elim (Option-cases (lookup dec key rows)) [
    | inl absent ↦ rw (absent, ResultCache.record_access) h
    | inr (r, there) ↦
        rw (there, ResultCache.record_access)
          (All-assign dec IsCurrentRow key _ rows (All-lookup dec IsCurrentRow key r rows there h)
            h)
  ]

  cache_result-IsCurrentRow :
      (rows : List (K × CacheRow S J U)) (key : K) (sql : S) (value : V) (user : Option U) (now : ℕ)
      → codec.decode (codec.encode value) ≡ db key
      → All IsCurrentRow rows
      → All IsCurrentRow (cache_result dec rows key sql (codec.encode value) user ttl now)
  unfolding cache_result
  cache_result-IsCurrentRow rows key sql value user now same h =
      elim (Option-cases (lookup dec key rows)) [
        | inl absent ↦ rw (absent, cache_result) (All-assign dec IsCurrentRow key _ rows same h)
        | inr (r, there) ↦ rw (there, cache_result) (All-assign dec IsCurrentRow key _ rows same h)
      ]

  remove_at-All :
      (i : ℕ) (jobs : List (Job K V T S U))
      → All IsCurrentJob jobs
      → All IsCurrentJob (remove_at dec dec_table codec ttl i jobs)
  remove_at-All zero [] h = tt
  remove_at-All (suc i) [] h = tt
  remove_at-All zero (job ∷ jobs) h = h.1
  remove_at-All (suc i) (job ∷ jobs) h = (h.0, remove_at-All i jobs h.1)

  job_at-All :
      (i : ℕ) (jobs : List (Job K V T S U)) (job : Job K V T S U)
      → job_at dec dec_table codec ttl i jobs ≡ some job
      → All IsCurrentJob jobs
      → IsCurrentJob job
  job_at-All zero [] job e h = absurd (ground (arith, e))
  job_at-All (suc i) [] job e h = absurd (ground (arith, e))
  job_at-All zero (x ∷ jobs) job e h = let same : x ≡ job = cc in subst IsCurrentJob same h.0
  job_at-All (suc i) (x ∷ jobs) job e h = job_at-All i jobs job e h.1

  pub lose-IsCurrent :
      (i : ℕ) (s : Caches K V T S J U) → IsCurrent s → IsCurrent (lose dec dec_table codec ttl i s)
  lose-IsCurrent i s h = record {
    room = h.room;
    entries = h.entries;
    rows = h.rows;
    pending = remove_at-All i s.pending h.pending;
  }

  run_job-IsCurrent :
      ((v : V) → codec.decode (codec.encode v) ≡ v)
      → (job : Job K V T S U) (now : ℕ) (s : Caches K V T S J U) → IsCurrentJob job
      → IsCurrent s
      → IsCurrent (run_job dec dec_table codec ttl job now s)
  unfolding run_job
  run_job-IsCurrent whole (persists q value) now s same h = record {
    room = h.room;
    entries = h.entries;
    rows =
        cache_result-IsCurrentRow s.rows q.cache_key q.sql value q.user_id now (whole value ∙ same)
          h.rows;
    pending = h.pending;
  }
  run_job-IsCurrent whole (touches q) now s same h = record {
    room = h.room;
    entries = h.entries;
    rows = record_access-IsCurrentRow s.rows q.cache_key now h.rows;
    pending = h.pending;
  }

  -- A job may land at any time.
  pub land-IsCurrent :
      ((v : V) → codec.decode (codec.encode v) ≡ v)
      → (i now : ℕ) (s : Caches K V T S J U) → IsCurrent s
      → IsCurrent (land dec dec_table codec ttl i now s)
  unfolding land
  land-IsCurrent whole i now s h =
      elim (Option-cases (job_at dec dec_table codec ttl i s.pending)) [
        | inl absent ↦ rw (absent, land) h
        | inr (job, there) ↦
            rw (there, land)
              (run_job-IsCurrent whole job now (lose dec dec_table codec ttl i s)
                (job_at-All i s.pending job there h.pending) (lose-IsCurrent i s h))
      ]

  -- A live row has what the database has.
  found_row :
      (s : Caches K V T S J U) (key : K) (now : ℕ) (r : CacheRow S J U)
      → IsCurrent s
      → get_cached_result dec s.rows key now ≡ some r
      → codec.decode r.result_data ≡ db key
  unfolding get_cached_result
  found_row s key now r h e = elim (Option-cases (lookup dec key s.rows)) [
    | inl absent ↦ absurd (ground (arith, rw (absent, get_cached_result) at e))
    | inr (x, there) ↦
        let current = All-lookup dec IsCurrentRow key x s.rows there h.rows in
        elim (Bool-cases (ResultCache.is_live x.expires_at now)) [
          | inl live ↦
              let same : x ≡ r = ground (arith, rw (there, get_cached_result) at e, live) in
              subst (λ (y : CacheRow S J U). codec.decode y.result_data ≡ db key) same current
          | inr over ↦ absurd (ground (arith, rw (there, get_cached_result) at e, over))
        ]
  ]

  pub resolve_lem :
      (s : Caches K V T S J U) (q : Query K T S U) (now : ℕ)
      → IsCurrent s
      → (after : Caches K V T S J U) × (source : Source) × (resolve dec dec_table codec ttl s q
            (db q.cache_key)
            now
          ≡ some (after, db q.cache_key, source))
        × IsCurrent after
  unfolding resolve
  resolve_lem s q now h =
      let (filled, done, current) = fill_l1_lem s q now h in
      elim (Option-cases (get_cached_result dec s.rows q.cache_key now)) [
        | inl absent ↦ (
          persist dec dec_table codec ttl q (db q.cache_key) filled,
          miss,
          rw (absent, resolve) (rw done refl),
          persist-IsCurrent q filled current,
        )
        | inr (r, there) ↦
            let data_current = found_row s q.cache_key now r h there in
            (
              submit_persist_job dec dec_table codec ttl (touches q) filled,
              l2,
              rw (there, resolve) (rw data_current (rw done refl)),
              submit_persist_job-IsCurrent (touches q) filled tt current,
            )
      ]
