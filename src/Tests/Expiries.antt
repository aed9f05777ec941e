-- ===== src/Tests/Expiries.antt =====
-- The cache with times to live of core/db/cache.py at concrete inputs.
use salesinfo_api_v.Base.{ℕ, ◌≡◌, refl, arith, List, [], ◌∷◌, none, some, ℕ_discrete}
use salesinfo_api_v.Base.Dict.{lookup, assign, delete}
use salesinfo_api_v.Caching.Entry.{CacheEntry, entry, is_expired, record_access}
use salesinfo_api_v.Caching.Lru.History.{Call, gets, puts}
use salesinfo_api_v.Caching.Ttl
use salesinfo_api_v.Caching.Ttl.{
  TtlQueryCache, ttl_or, expiry, earliest_of, get, make_room, put, invalidate, clear,
}
use salesinfo_api_v.Caching.Ttl.Bounds.{IsBounded, run, step, ttl_run-IsBounded}

-- What the tests compute with.
code : Unit {0}
unfolding get put make_room Ttl.init entry is_expired record_access lookup assign delete ℕ_discrete
    run step earliest_of
code = tt

abbrev calls : List (Call ℕ ℕ)
calls = puts 1 10 (some 60) 0 ∷ puts 2 20 (some 0) 1 ∷ gets 1 2 ∷ puts 2 21 (some 90) 3 ∷ []

ttl_run-IsBounded_example :
    (d : TtlQueryCache ℕ ℕ) × (run ℕ_discrete (Ttl.init 2 3600) calls ≡ some d)
    × (d.max_size ≡ 2)
    × IsBounded d
ttl_run-IsBounded_example = ttl_run-IsBounded ℕ_discrete 2 3600 calls (omega arith)

abbrev binding : ℕ → ℕ → ℕ → ℕ × CacheEntry ℕ
binding key ttl at =
    (key, record { value = 7; ttl = some ttl; created_at = at; accessed_at = at; access_count = 0 })

-- Key 1 expires at 60, key 2 at 3601.
abbrev full : TtlQueryCache ℕ ℕ
full = record {
  max_size = 2;
  default_ttl = 3600;
  cache = binding 1 60 0 ∷ binding 2 3600 1 ∷ [];
  hits = 0;
  misses = 0;
}

room_test : make_room ℕ_discrete full ≡ some (binding 2 3600 1 ∷ [])
unfolding code
room_test = refl

-- Key 2 is overwritten with the time to live 0, and key 1 is lost.
abbrev overwritten : TtlQueryCache ℕ ℕ
overwritten = record full { cache = binding 2 3600 5 ∷ [] }

put_test : put ℕ_discrete full 2 7 (some 0) 5 ≡ some overwritten
unfolding code
put_test = refl

kept_test : lookup ℕ_discrete 2 (binding 2 3600 1 ∷ []) ≡ some (binding 2 3600 1).1
unfolding code
kept_test = refl

expired_test : (get ℕ_discrete overwritten 2 3606).1 ≡ none
unfolding code
expired_test = refl
