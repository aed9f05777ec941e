-- ===== src/Caching/ResultCache.antt =====
-- `QueryResultCache` of core/caching/query_result_cache.py: the persistent cache (L2), one table. Keys are those
-- that `generate_cache_key` gives; `like sql pattern` says whether `sql LIKE '%pattern%'`. The numbers for
-- diagnostics, the session id and the sizes are left out.
use salesinfo_api_v.Base.{
  ℕ, zero, suc, ◌+◌, ltb, Bool, true, false, ◌&&◌, if◌then◌else◌, List, [], ◌∷◌, Option, none, some,
  ite,
}
use salesinfo_api_v.Base.Dict.{lookup, assign}

pub record CacheRow (S J U : Type 0) : Type 0 where
  pub query_sql : S
  pub result_data : J
  pub expires_at : Option ℕ
  pub user_id : Option U
  pub last_accessed_at : Option ℕ
  pub access_count : ℕ

-- `expires_at IS NULL OR expires_at > now`.
abbrev pub is_live : Option ℕ → ℕ → Bool
is_live none now = true
is_live (some expires_at) now = ltb now expires_at

-- A time to live of 0 is no expiry.
abbrev pub expiry : ℕ → ℕ → Option ℕ
expiry zero now = none
expiry (suc ttl) now = some (now + suc ttl)

module _ {K S J U : Type 0} (dec : Discrete K) where
  unfoldable pub get_cached_result : List (K × CacheRow S J U) → K → ℕ → Option (CacheRow S J U)
  get_cached_result rows key now = elim (lookup dec key rows) [
    | none ↦ none
    | some r ↦ if is_live r.expires_at now then some r else none
  ]

  unfoldable pub record_access : List (K × CacheRow S J U) → K → ℕ → List (K × CacheRow S J U)
  record_access rows key now = elim (lookup dec key rows) [
    | none ↦ rows
    | some r ↦
        assign dec key (record r { last_accessed_at = some now; access_count = r.access_count + 1 })
          rows
  ]

  -- The UPSERT: an update keeps the two columns of `record_access`.
  unfoldable pub cache_result :
      List (K × CacheRow S J U) → K → S → J → Option U → ℕ → ℕ → List (K × CacheRow S J U)
  cache_result rows key query_sql result_data user_id ttl now =
      let fresh : CacheRow S J U = record {
        query_sql = query_sql;
        result_data = result_data;
        expires_at = expiry ttl now;
        user_id = user_id;
        last_accessed_at = none;
        access_count = 0;
      } in
      elim (lookup dec key rows) [
        | none ↦ assign dec key fresh rows
        | some r ↦
            assign dec key
              (record fresh {
                last_accessed_at = r.last_accessed_at;
                access_count = r.access_count;
              })
              rows
      ]

abbrev pub has_pattern : {S J U : Type 0} → (S → S → Bool) → Option S → CacheRow S J U → Bool
has_pattern like none r = true
has_pattern like (some query_pattern) r = like r.query_sql query_pattern

abbrev pub is_user : {U : Type 0} → Discrete U → Option U → Option U → Bool
is_user dec_user none column = true
is_user dec_user (some user_id) none = false
is_user dec_user (some user_id) (some u) = ite (dec_user u user_id) true false

module _ {K S J U : Type 0} (dec_user : Discrete U) (like : S → S → Bool) where
  abbrev pub delete_where :
      Option S → Option U → List (K × CacheRow S J U) → List (K × CacheRow S J U)
  delete_where pattern user_id [] = []
  delete_where pattern user_id (e ∷ rows) =
      let rest = delete_where pattern user_id rows in
      if has_pattern like pattern e.1 && is_user dec_user user_id e.1.user_id
      then rest
      else e ∷ rest

  -- With neither a pattern nor a user nothing is deleted.
  unfoldable pub invalidate_cache :
      List (K × CacheRow S J U) → Option S → Option U → List (K × CacheRow S J U)
  invalidate_cache rows none none = rows
  invalidate_cache rows none (some user_id) = delete_where none (some user_id) rows
  invalidate_cache rows (some pattern) user_id = delete_where (some pattern) user_id rows
