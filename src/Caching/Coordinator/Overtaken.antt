-- ===== src/Caching/Coordinator/Overtaken.antt =====
-- A read that a write overtakes: `_resolve` of core/caching/query_cache_coordinator.py is suspended while it
-- waits for the database.
use salesinfo_api_v.Base.{
  ℕ, ◌-◌, ◌≤◌, ◌<◌, ◌≡◌, refl, sym, ap, ◌∙◌, subst, All, ◌++◌, Option, none, if_pos, arith, Bool,
  false, List, [], ◌∷◌, some,
}
use salesinfo_api_v.Base.Dict.{lookup, assign, delete}
use salesinfo_api_v.Caching.Entry.{CacheEntry, entry, is_expired, record_access}
use salesinfo_api_v.Caching.Lru.{
  move_to_end, LruQueryCache, HybridQueryCache, get, put, make_room, clear, hybrid_get,
  hybrid_clear,
}
use salesinfo_api_v.Caching.Coordinator.{QueryCacheCoordinator, tag_tables, clear_all}
use salesinfo_api_v.Caching.Coordinator.Entries.{hybrid_put-some}
use salesinfo_api_v.Caching.Coordinator.Current.{tag_tables-l1}
use salesinfo_api_v.Caching.Coordinator.Resolve.{
  Source, l1, Caches, Query, Codec, fill_l1, get_or_execute, invalidate_after_write,
}

module _ {K V : Type 0} (dec : Discrete K) where
  put_cleared :
      (c : LruQueryCache K V) (key : K) (value : V) (ttl filled : ℕ)
      → 0 < c.max_size
      → put dec (clear dec c) key value (some ttl) filled
        ≡ some (record {
          max_size = c.max_size;
          cache = (key, entry value (some ttl) filled) ∷ [];
          hits = 0;
          misses = 0;
        })
  unfolding put clear make_room lookup assign
  put_cleared c key value ttl filled positive = ground (arith, positive)

  -- L1 has one entry, for `key`, with the value `old` that was put there at the time `filled`.
  pub record HasOnly (key : K) (old : V) (ttl filled : ℕ) (c : LruQueryCache K V) : Type 0 where
    pub held : CacheEntry V
    pub only : c.cache ≡ (key, held) ∷ []
    pub same : held.value ≡ old
    pub lives : held.ttl ≡ some ttl
    pub since : held.created_at ≡ filled

  get_only :
      (c : LruQueryCache K V) (key : K) (old : V) (ttl filled now : ℕ)
      → now - filled ≤ ttl
      → HasOnly key old ttl filled c
      → ((get dec c key now).1 ≡ some old) × HasOnly key old ttl filled (get dec c key now).0
  unfolding get is_expired record_access move_to_end lookup delete
  get_only c key old ttl filled now young h =
      let there : lookup dec key c.cache ≡ some h.held =
        ap (lookup dec key) h.only ∙ if_pos (dec key key) refl (some h.held) none in
      let lives : h.held.ttl ≡ some ttl = h.lives in
      let since : h.held.created_at ≡ filled = h.since in
      let fresh : is_expired h.held now ≡ false = ground (arith, lives, since, young) in
      let moved : delete dec key c.cache ≡ [] =
        ap (delete dec key) h.only ∙ if_pos (dec key key) refl [] ((key, h.held) ∷ []) in
      rw (there, get)
        (rw fresh (
          ap some h.same,
          record {
            held = record_access h.held now;
            only = ap (λ d. d ++ (key, record_access h.held now) ∷ []) moved;
            same = h.same;
            lives = h.lives;
            since = h.since;
          },
        ))

module _ {K V T S J U : Type 0} (dec : Discrete K) (dec_table : Discrete T) (codec : Codec V J)
    (ttl : ℕ) where
  -- The answers to reads of one query, each with what the database has by then and a time.
  unfoldable pub reads_of :
      Caches K V T S J U → Query K T S U → List (V × ℕ) → List (Option (V × Source))
  reads_of s q [] = []
  reads_of s q ((fresh, now) ∷ reads) =
      elim (get_or_execute dec dec_table codec ttl s q fresh now) [
        | none ↦ none ∷ reads_of s q reads
        | some r ↦ some (r.1, r.2) ∷ reads_of r.0 q reads
      ]

  reads_of-HasOnly :
      (s : Caches K V T S J U) (q : Query K T S U) (old : V) (filled : ℕ) (reads : List (V × ℕ))
      → HasOnly dec q.cache_key old ttl filled s.coordinator.l1.store
      → All (λ r. r.1 - filled ≤ ttl) reads
      → All (λ a. a ≡ some (old, l1)) (reads_of s q reads)
  unfolding reads_of get_or_execute hybrid_get
  reads_of-HasOnly s q old filled [] h young = tt
  reads_of-HasOnly s q old filled ((fresh, now) ∷ reads) h young =
      let (found, still) =
        get_only dec s.coordinator.l1.store q.cache_key old ttl filled now young.0 h in
      let later : Caches K V T S J U = record s {
        coordinator = record s.coordinator {
          l1 = record s.coordinator.l1 {
            store = (get dec s.coordinator.l1.store q.cache_key now).0;
          };
        };
      } in
      let answered : get_or_execute dec dec_table codec ttl s q fresh now ≡ some (later, old, l1) =
        rw (found, get_or_execute) refl in
      rw (answered, reads_of) (refl, reads_of-HasOnly later q old filled reads still young.1)

module _ {K V T S J U : Type 0} (dec : Discrete K) (dec_table : Discrete T) (dec_user : Discrete U)
    (like : S → S → Bool) (name : T → S) (codec : Codec V J) (ttl : ℕ) where
  -- A read that got `old` from the database before a write, and puts it into L1 after the write has cleared
  -- all caches, succeeds; any reads of the same query that come next, with nothing else between them, are
  -- all answered by L1 with `old` while the time to live lasts, whatever the database has by then.
  pub fill_l1-reads_of :
      (s : Caches K V T S J U) (q : Query K T S U) (written : List T) (old : V) (filled : ℕ)
      (reads : List (V × ℕ))
      → 0 < s.coordinator.l1.store.max_size
      → All (λ r. r.1 - filled ≤ ttl) reads
      → (after : Caches K V T S J U) × (fill_l1 dec dec_table codec ttl
            (invalidate_after_write dec dec_table dec_user like name false s written)
            q
            old
            filled
          ≡ some after)
        × All (λ a. a ≡ some (old, l1)) (reads_of dec dec_table codec ttl after q reads)
  unfolding invalidate_after_write clear_all hybrid_clear fill_l1 entry
  fill_l1-reads_of s q written old filled reads positive young =
      let cache = s.coordinator.l1 in
      let store : LruQueryCache K V = record {
        max_size = cache.store.max_size;
        cache = (q.cache_key, entry old (some ttl) filled) ∷ [];
        hits = 0;
        misses = 0;
      } in
      let cleared : HybridQueryCache K V = record cache { store = clear dec cache.store } in
      let put_old =
        hybrid_put-some dec cleared q.cache_key old ttl filled store
          (put_cleared dec cache.store q.cache_key old ttl filled positive) in
      let filled_l1 : QueryCacheCoordinator K V T = record s.coordinator {
        l1 = record cache { store = store };
        key_tables = [];
        table_keys = [];
      } in
      let tagged : QueryCacheCoordinator K V T =
        tag_tables dec dec_table filled_l1 q.cache_key q.tables in
      let after : Caches K V T S J U = record s { coordinator = tagged; rows = [] } in
      let kept = tag_tables-l1 dec dec_table filled_l1 q.cache_key q.tables in
      let holds : HasOnly dec q.cache_key old ttl filled store = record {
        held = entry old (some ttl) filled;
        only = refl;
        same = refl;
        lives = refl;
        since = refl;
      } in
      (
        after,
        rw (put_old, fill_l1) refl,
        reads_of-HasOnly dec dec_table codec ttl after q old filled reads
            (subst (λ (c : HybridQueryCache K V). HasOnly dec q.cache_key old ttl filled c.store)
              (sym kept) holds)
            young,
      )
