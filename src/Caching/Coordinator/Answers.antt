-- ===== src/Caching/Coordinator/Answers.antt =====
-- Reads and writes one after another, as `QueryService.run` of core/services/query_service.py makes them of
-- core/caching/query_cache_coordinator.py, and a read that a write overtakes.
use salesinfo_api_v.Base.{
  ℕ, ◌≡◌, ◌⊎◌, inl, inr, refl, sym, ap, subst, arith, Bool, true, false, List, [], ◌∷◌, Option,
  none, some, All,
}
use salesinfo_api_v.Caching.Lru.{get, clear, hybrid_get, hybrid_clear}
use salesinfo_api_v.Caching.Coordinator.{clear_all, invalidate_tables}
use salesinfo_api_v.Caching.Coordinator.Entries.{get-All}
use salesinfo_api_v.Caching.Coordinator.Resolve.{
  Source, l1, Caches, Query, Codec, get_or_execute, clear_caches, invalidate_after_write, land,
  lose,
}
use salesinfo_api_v.Caching.Coordinator.Current.{
  IsCurrent, resolve_lem, land-IsCurrent, lose-IsCurrent,
}

-- What happens: a read at a time, a pending job that a worker has done at a time, one that is lost, or a
-- write that ends with other contents of the database, whose statement has the given tables.
pub data Event (K V T S U : Type 0) : Type 0 where
  reads : Query K T S U → ℕ → Event K V T S U
  lands : ℕ → ℕ → Event K V T S U
  loses : ℕ → Event K V T S U
  writes : (K → V) → Bool → List T → Event K V T S U

-- A write that clears all caches: precise invalidation is off, or no table was found.
abbrev pub IsWide : {K V T S U : Type 0} → Event K V T S U → Type 0
IsWide (reads q now) = Unit
IsWide (lands i now) = Unit
IsWide (loses i) = Unit
IsWide (writes db precise tables) = (precise ≡ false) ⊎ (tables ≡ [])

module _ {K V T S J U : Type 0} where
  abbrev caches_after :
      Caches K V T S J U → Option (Caches K V T S J U × V × Source) → Caches K V T S J U
  caches_after s none = s
  caches_after s (some r) = r.0

  abbrev answer : Option (Caches K V T S J U × V × Source) → Option V
  answer none = none
  answer (some r) = some r.1

module _ {K V T S J U : Type 0} (dec : Discrete K) (dec_table : Discrete T) (codec : Codec V J)
    (ttl : ℕ) where
  -- A read with caches that agree with the database is answered, with what the database has.
  pub get_or_execute_lem :
      (db : K → V) (s : Caches K V T S J U) (q : Query K T S U) (now : ℕ)
      → IsCurrent dec dec_table codec ttl db s
      → (after : Caches K V T S J U) × (source : Source) × (get_or_execute dec dec_table codec ttl s
            q
            (db q.cache_key)
            now
          ≡ some (after, db q.cache_key, source))
        × IsCurrent dec dec_table codec ttl db after
  unfolding get_or_execute hybrid_get
  get_or_execute_lem db s q now h =
      let g = get dec s.coordinator.l1.store q.cache_key now in
      let (entries, same, hit_or_miss) =
        get-All dec db s.coordinator.l1.store q.cache_key now h.entries in
      let after : Caches K V T S J U = record s {
        coordinator = record s.coordinator { l1 = record s.coordinator.l1 { store = g.0 } };
      } in
      let current : IsCurrent dec dec_table codec ttl db after = record {
        room = omega (arith, same, h.room);
        entries = entries;
        rows = h.rows;
        pending = h.pending;
      } in
      elim hit_or_miss [
        | inl hit ↦ (after, l1, rw (hit, get_or_execute) refl, current)
        | inr miss ↦
            let (resolved, source, done, good) =
              resolve_lem dec dec_table codec ttl db after q now current in
            (resolved, source, rw (miss, get_or_execute) done, good)
      ]

module _ {K V T S J U : Type 0} (dec : Discrete K) (dec_table : Discrete T) (dec_user : Discrete U)
    (like : S → S → Bool) (name : T → S) (codec : Codec V J) (ttl : ℕ) where
  -- Each read's answer, with what the database has at that time.
  unfoldable pub answers :
      Caches K V T S J U → (K → V) → List (Event K V T S U) → List (Option V × V)
  answers s db [] = []
  answers s db (reads q now ∷ events) =
      let r = get_or_execute dec dec_table codec ttl s q (db q.cache_key) now in
      (answer r, db q.cache_key) ∷ answers (caches_after s r) db events
  answers s db (lands i now ∷ events) = answers (land dec dec_table codec ttl i now s) db events
  answers s db (loses i ∷ events) = answers (lose dec dec_table codec ttl i s) db events
  answers s db (writes new precise tables ∷ events) =
      answers (invalidate_after_write dec dec_table dec_user like name precise s tables) new events

  -- No job is pending when a write clears the caches.
  abbrev pub IsDrained : Caches K V T S J U → (K → V) → List (Event K V T S U) → Type 0
  IsDrained s db [] = Unit
  IsDrained s db (reads q now ∷ events) =
      IsDrained (caches_after s (get_or_execute dec dec_table codec ttl s q (db q.cache_key) now))
        db events
  IsDrained s db (lands i now ∷ events) = IsDrained (land dec dec_table codec ttl i now s) db events
  IsDrained s db (loses i ∷ events) = IsDrained (lose dec dec_table codec ttl i s) db events
  IsDrained s db (writes new precise tables ∷ events) =
      (s.pending ≡ [])
      × IsDrained (invalidate_after_write dec dec_table dec_user like name precise s tables) new
          events

  clear-IsCurrent :
      (db new : K → V) (s : Caches K V T S J U)
      → s.pending ≡ []
      → IsCurrent dec dec_table codec ttl db s
      → IsCurrent dec dec_table codec ttl new (clear_caches dec dec_table s)
  unfolding clear_all hybrid_clear clear
  clear-IsCurrent db new s idle h = record {
    room = h.room;
    entries = tt;
    rows = tt;
    pending = rw idle tt;
  }

  write-IsCurrent :
      (db new : K → V) (s : Caches K V T S J U) (precise : Bool) (tables : List T)
      → (precise ≡ false) ⊎ (tables ≡ [])
      → s.pending ≡ []
      → IsCurrent dec dec_table codec ttl db s
      → IsCurrent dec dec_table codec ttl new
          (invalidate_after_write dec dec_table dec_user like name precise s tables)
  unfolding invalidate_after_write invalidate_tables
  write-IsCurrent db new s false tables w idle h = clear-IsCurrent db new s idle h
  write-IsCurrent db new s true [] w idle h = clear-IsCurrent db new s idle h
  write-IsCurrent db new s true (t ∷ ts) w idle h = absurd (ground (arith, w))

  -- If JSON gives every result back as it was, L1 has room for an entry, and both levels and the jobs that
  -- are pending agree with the database at first, then every read, whether it is answered by L1, by L2 or
  -- by the database, is answered, and with what the database has at that time, for any reads and writes one
  -- after another whose writes clear all caches, while workers do or lose the jobs of the persistence queue in
  -- any order and at any time, provided that no job is pending when a write clears the caches.
  pub answers_lem :
      (s : Caches K V T S J U) (db : K → V) (events : List (Event K V T S U))
      → ((v : V) → codec.decode (codec.encode v) ≡ v)
      → All IsWide events
      → IsDrained s db events
      → IsCurrent dec dec_table codec ttl db s
      → All (λ a. a.0 ≡ some a.1) (answers s db events)
  unfolding answers
  answers_lem s db [] whole w idle h = tt
  answers_lem s db (reads q now ∷ events) whole w idle h =
      let (after, source, done, current) =
        get_or_execute_lem dec dec_table codec ttl db s q now h in
      (
        ap answer done,
        subst (λ r. All (λ a. a.0 ≡ some a.1) (answers (caches_after s r) db events)) (sym done)
            (answers_lem after db events whole w.1
              (subst (λ r. IsDrained (caches_after s r) db events) done idle) current),
      )
  answers_lem s db (lands i now ∷ events) whole w idle h =
      answers_lem (land dec dec_table codec ttl i now s) db events whole w.1 idle
        (land-IsCurrent dec dec_table codec ttl db whole i now s h)
  answers_lem s db (loses i ∷ events) whole w idle h =
      answers_lem (lose dec dec_table codec ttl i s) db events whole w.1 idle
        (lose-IsCurrent dec dec_table codec ttl db i s h)
  answers_lem s db (writes new precise tables ∷ events) whole w idle h =
      answers_lem (invalidate_after_write dec dec_table dec_user like name precise s tables) new
        events whole w.1 idle.1 (write-IsCurrent db new s precise tables w.0 idle.0 h)
