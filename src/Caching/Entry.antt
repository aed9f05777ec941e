-- ===== src/Caching/Entry.antt =====
-- `CacheEntry` of core/db/cache.py. Times and times to live are numbers of one unit, and a time to
-- live is not negative.
use salesinfo_api_v.Base.{ℕ, ◌+◌, ◌-◌, Bool, false, ltb, Option, none, some}

pub record CacheEntry {ℓ} (V : Type ℓ) : Type ℓ where
  pub value : V
  pub ttl : Option ℕ
  pub created_at : ℕ
  pub accessed_at : ℕ
  pub access_count : ℕ

module _ {ℓ} {V : Type ℓ} where
  unfoldable pub entry : V → Option ℕ → ℕ → CacheEntry V
  entry value ttl now = record {
    value = value;
    ttl = ttl;
    created_at = now;
    accessed_at = now;
    access_count = 0;
  }

  unfoldable pub is_expired : CacheEntry V → ℕ → Bool
  is_expired e now = elim e.ttl [ none ↦ false | some ttl ↦ ltb ttl (now - e.created_at) ]

  unfoldable pub record_access : CacheEntry V → ℕ → CacheEntry V
  record_access e now = record e { accessed_at = now; access_count = e.access_count + 1 }
