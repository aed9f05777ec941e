-- ===== src/Caching/Lru.antt =====
-- `LRUQueryCache` and `HybridQueryCache` of core/db/cache.py, over any keys with decidable
-- equality. The ordered dictionary is a list, least recently used first.
pub mod Coherence
pub mod History
pub mod Served
use salesinfo_api_v.Base.{
  ℕ, ◌+◌, ◌*◌, leb, if◌then◌else◌, List, [], ◌∷◌, ◌++◌, Option, none, some, length,
}
use salesinfo_api_v.Base.Dict.{lookup, assign, delete}
use salesinfo_api_v.Caching.Entry.{CacheEntry, entry, is_expired, record_access}

pub record LruQueryCache {ℓ} (K V : Type ℓ) : Type ℓ where
  pub max_size : ℕ
  pub cache : List (K × CacheEntry V)
  pub hits : ℕ
  pub misses : ℕ

unfoldable pub init {ℓ} : {K V : Type ℓ} → ℕ → LruQueryCache K V
init max_size = record { max_size = max_size; cache = []; hits = 0; misses = 0 }

module _ {ℓ} {K V : Type ℓ} (dec : Discrete K) where
  -- `move_to_end(key)` with the entry that then stands there.
  unfoldable pub move_to_end : K → CacheEntry V → List (K × CacheEntry V) → List (K × CacheEntry V)
  move_to_end key e cache = delete dec key cache ++ (key, e) ∷ []

  unfoldable pub get : LruQueryCache K V → K → ℕ → LruQueryCache K V × Option V
  get c key now = elim (lookup dec key c.cache) [
    | none ↦ (record c { misses = c.misses + 1 }, none)
    | some e ↦
        if is_expired e now
        then (record c { cache = delete dec key c.cache; misses = c.misses + 1 }, none)
        else (
          record c { cache = move_to_end key (record_access e now) c.cache; hits = c.hits + 1 },
          some e.value,
        )
  ]

  -- `next(iter(cache))` and `del`: `none` is the StopIteration of an empty cache.
  unfoldable pub evict_first : List (K × CacheEntry V) → Option (List (K × CacheEntry V))
  evict_first [] = none
  evict_first (e ∷ cache) = some cache

  unfoldable pub make_room : LruQueryCache K V → Option (List (K × CacheEntry V))
  make_room c = if leb c.max_size (length c.cache) then evict_first c.cache else some c.cache

  unfoldable pub put : LruQueryCache K V → K → V → Option ℕ → ℕ → Option (LruQueryCache K V)
  put c key value ttl now = elim (lookup dec key c.cache) [
    | some _ ↦ some (record c { cache = move_to_end key (entry value ttl now) c.cache })
    | none ↦ elim (make_room c) [
      | none ↦ none
      | some kept ↦ some (record c { cache = assign dec key (entry value ttl now) kept })
    ]
  ]

  unfoldable pub invalidate : LruQueryCache K V → K → LruQueryCache K V
  invalidate c key = record c { cache = delete dec key c.cache }

  unfoldable pub clear : LruQueryCache K V → LruQueryCache K V
  clear c = record c { cache = []; hits = 0; misses = 0 }

  unfoldable pub size : LruQueryCache K V → ℕ
  size c = length c.cache

-- The hit rate is the exact percentage `total / count`, before it is printed.
pub record CacheStats : Type 0 where
  pub size : ℕ
  pub max_size : ℕ
  pub hits : ℕ
  pub misses : ℕ
  pub hit_rate : ℕ × ℕ
  pub total_requests : ℕ

unfoldable pub stats {ℓ} : {K V : Type ℓ} → LruQueryCache K V → CacheStats
stats c = record {
  size = length c.cache;
  max_size = c.max_size;
  hits = c.hits;
  misses = c.misses;
  hit_rate = if leb 1 (c.hits + c.misses) then (c.hits * 100, c.hits + c.misses) else (0, 1);
  total_requests = c.hits + c.misses;
}

abbrev pub ttl_or_default : Option ℕ → ℕ → Option ℕ
ttl_or_default none default_ttl = some default_ttl
ttl_or_default (some ttl) default_ttl = some ttl

pub record HybridQueryCache {ℓ} (K V : Type ℓ) : Type ℓ where
  pub store : LruQueryCache K V
  pub default_ttl : ℕ

module _ {ℓ} {K V : Type ℓ} (dec : Discrete K) where
  unfoldable pub hybrid_get : HybridQueryCache K V → K → ℕ → HybridQueryCache K V × Option V
  hybrid_get c key now =
      let (store, value) = get dec c.store key now in (record c { store = store }, value)

  unfoldable pub hybrid_put :
      HybridQueryCache K V → K → V → Option ℕ → ℕ → Option (HybridQueryCache K V)
  hybrid_put c key value ttl now =
      elim (put dec c.store key value (ttl_or_default ttl c.default_ttl) now) [
        | none ↦ none
        | some store ↦ some (record c { store = store })
      ]

  unfoldable pub hybrid_invalidate : HybridQueryCache K V → K → HybridQueryCache K V
  hybrid_invalidate c key = record c { store = invalidate dec c.store key }

  unfoldable pub hybrid_clear : HybridQueryCache K V → HybridQueryCache K V
  hybrid_clear c = record c { store = clear dec c.store }
