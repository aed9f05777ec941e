-- ===== src/Caching/Ttl.antt =====
-- `TTLQueryCache` of core/db/cache.py, over any keys with decidable equality. The dictionary keeps
-- the order of insertion; an access does not move an entry.
pub mod Bounds
pub mod Overwrite
use salesinfo_api_v.Base.{
  ℕ, zero, suc, ◌+◌, ◌*◌, leb, ltb, if◌then◌else◌, List, [], ◌∷◌, Option, none, some, length,
}
use salesinfo_api_v.Base.Dict.{lookup, assign, delete}
use salesinfo_api_v.Caching.Entry.{CacheEntry, entry, is_expired, record_access}

pub record TtlQueryCache {ℓ} (K V : Type ℓ) : Type ℓ where
  pub max_size : ℕ
  pub default_ttl : ℕ
  pub cache : List (K × CacheEntry V)
  pub hits : ℕ
  pub misses : ℕ

unfoldable pub init {ℓ} : {K V : Type ℓ} → ℕ → ℕ → TtlQueryCache K V
init max_size default_ttl = record {
  max_size = max_size;
  default_ttl = default_ttl;
  cache = [];
  hits = 0;
  misses = 0;
}

-- `ttl or default_ttl`: None and 0 both give the default.
abbrev pub ttl_or : Option ℕ → ℕ → ℕ
ttl_or none default_ttl = default_ttl
ttl_or (some zero) default_ttl = default_ttl
ttl_or (some (suc ttl)) default_ttl = suc ttl

module _ {ℓ} {K V : Type ℓ} where
  abbrev pub expiry : ℕ → K × CacheEntry V → ℕ
  expiry default_ttl binding = binding.1.created_at + ttl_or binding.1.ttl default_ttl

  abbrev pub sooner : ℕ → K × CacheEntry V → K × CacheEntry V → K × CacheEntry V
  sooner default_ttl b other =
      if ltb (expiry default_ttl other) (expiry default_ttl b) then other else b

  -- `min(...)` with its key: of `b` and the entries after it the first that expires soonest.
  unfoldable pub earliest_of : ℕ → K × CacheEntry V → List (K × CacheEntry V) → K × CacheEntry V
  earliest_of default_ttl b [] = b
  earliest_of default_ttl b (next ∷ cache) =
      sooner default_ttl b (earliest_of default_ttl next cache)

  -- `none` is the ValueError of an empty cache.
  abbrev pub earliest : ℕ → List (K × CacheEntry V) → Option (K × CacheEntry V)
  earliest default_ttl [] = none
  earliest default_ttl (b ∷ cache) = some (earliest_of default_ttl b cache)

module _ {ℓ} {K V : Type ℓ} (dec : Discrete K) where
  unfoldable pub get : TtlQueryCache K V → K → ℕ → TtlQueryCache K V × Option V
  get c key now = elim (lookup dec key c.cache) [
    | none ↦ (record c { misses = c.misses + 1 }, none)
    | some e ↦
        if is_expired e now
        then (record c { cache = delete dec key c.cache; misses = c.misses + 1 }, none)
        else (
          record c { cache = assign dec key (record_access e now) c.cache; hits = c.hits + 1 },
          some e.value,
        )
  ]

  unfoldable pub make_room : TtlQueryCache K V → Option (List (K × CacheEntry V))
  make_room c =
      if leb c.max_size (length c.cache)
      then elim (earliest c.default_ttl c.cache) [
        | none ↦ none
        | some b ↦ some (delete dec b.0 c.cache)
      ]
      else some c.cache

  unfoldable pub put : TtlQueryCache K V → K → V → Option ℕ → ℕ → Option (TtlQueryCache K V)
  put c key value ttl now = elim (make_room c) [
    | none ↦ none
    | some kept ↦ some (record c {
      cache = assign dec key (entry value (some (ttl_or ttl c.default_ttl)) now) kept;
    })
  ]

  unfoldable pub invalidate : TtlQueryCache K V → K → TtlQueryCache K V
  invalidate c key = record c { cache = delete dec key c.cache }

unfoldable pub clear {ℓ} : {K V : Type ℓ} → TtlQueryCache K V → TtlQueryCache K V
clear c = record c { cache = []; hits = 0; misses = 0 }

unfoldable pub size {ℓ} : {K V : Type ℓ} → TtlQueryCache K V → ℕ
size c = length c.cache

-- The hit rate is the exact percentage, before it is printed.
pub record TtlStats : Type 0 where
  pub size : ℕ
  pub max_size : ℕ
  pub default_ttl : ℕ
  pub hits : ℕ
  pub misses : ℕ
  pub hit_rate : ℕ × ℕ
  pub total_requests : ℕ

unfoldable pub stats {ℓ} : {K V : Type ℓ} → TtlQueryCache K V → TtlStats
stats c = record {
  size = length c.cache;
  max_size = c.max_size;
  default_ttl = c.default_ttl;
  hits = c.hits;
  misses = c.misses;
  hit_rate = if leb 1 (c.hits + c.misses) then (c.hits * 100, c.hits + c.misses) else (0, 1);
  total_requests = c.hits + c.misses;
}
