-- ===== src/Tests/Coordination.antt =====
-- The coordinator of core/caching at concrete inputs.
use salesinfo_api_v.Base.{
  ℕ, ◌≡◌, refl, arith, true, false, inl, inr, [], ◌∷◌, none, some, ℕ_discrete,
}
use salesinfo_api_v.Base.Dict.{lookup, assign, delete}
use salesinfo_api_v.Caching.Lru.{hybrid_get}
use salesinfo_api_v.Caching.Coordinator.{
  QueryCacheCoordinator, add_key, tag_tables, pop_tables, pop_keys, invalidate_keys,
  invalidate_tables, join, leave,
}
use salesinfo_api_v.Caching.Coordinator.Tags.{invalidate_tables-tag_tables}
use salesinfo_api_v.Caching.Coordinator.Flights.{joins, leaves, after, join-follows}

-- What the tests compute with.
code : Unit {0}
unfolding lookup assign delete ℕ_discrete join leave after add_key tag_tables pop_tables pop_keys
    invalidate_keys invalidate_tables
code = tt

-- Query 1 is cached; it reads the tables 10 and 11.
abbrev cached : QueryCacheCoordinator ℕ ℕ ℕ
cached = record {
  l1 = record {
    store = record {
      max_size = 2;
      cache =
          (1, record { value = 5; ttl = some 9; created_at = 0; accessed_at = 0; access_count = 0 })
          ∷ [];
      hits = 0;
      misses = 0;
    };
    default_ttl = 60;
  };
  inflight = [];
  key_tables = [];
  table_keys = [];
}

abbrev tagged : QueryCacheCoordinator ℕ ℕ ℕ
tagged = tag_tables ℕ_discrete ℕ_discrete cached 1 (10 ∷ 11 ∷ [])

invalidate_tables-tag_tables_example :
    ((invalidate_tables ℕ_discrete ℕ_discrete tagged (12 ∷ 11 ∷ [])).1 ≡ true)
    × ((hybrid_get ℕ_discrete
          (invalidate_tables ℕ_discrete ℕ_discrete tagged (12 ∷ 11 ∷ [])).0.l1
          1
          3).1
        ≡ none)
    × ((invalidate_tables ℕ_discrete ℕ_discrete tagged (12 ∷ 11 ∷ [])).2 ≡ 12 ∷ 11 ∷ [])
invalidate_tables-tag_tables_example =
    invalidate_tables-tag_tables ℕ_discrete ℕ_discrete cached 1 11 (10 ∷ 11 ∷ []) (12 ∷ 11 ∷ []) 3
      (tt, tt) (inr (inl refl)) (inr (inl refl))

untouched_test : (invalidate_tables ℕ_discrete ℕ_discrete tagged (12 ∷ [])).1 ≡ false
unfolding code
untouched_test = refl

leader_test : (join ℕ_discrete [] 1 50).2 ≡ true
unfolding code
leader_test = refl

-- Another key's flight begins and ends while the flight 50 of key 1 is under way.
join-follows_example :
    join ℕ_discrete
      (after ℕ_discrete (join ℕ_discrete [] 1 50).0 (joins 2 51 ∷ leaves 2 51 ∷ []))
      1
      52
    ≡ (after ℕ_discrete (join ℕ_discrete [] 1 50).0 (joins 2 51 ∷ leaves 2 51 ∷ []), 50, false)
join-follows_example =
    join-follows ℕ_discrete [] 1 50 52 (joins 2 51 ∷ leaves 2 51 ∷ []) leader_test
      (tt, (omega arith, tt))

over_test : after ℕ_discrete (join ℕ_discrete [] 1 50).0 (leaves 1 50 ∷ []) ≡ []
unfolding code
over_test = refl
