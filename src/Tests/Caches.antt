-- ===== src/Tests/Caches.antt =====
-- The LRU cache and the persistence queue at concrete inputs.
use salesinfo_api_v.Base.{ℕ, ◌≡◌, refl, false, arith, List, [], ◌∷◌, none, some, ℕ_discrete}
use salesinfo_api_v.Base.Dict.{lookup, assign, delete}
use salesinfo_api_v.Caching.Entry.{entry, is_expired, record_access}
use salesinfo_api_v.Caching.Lru
use salesinfo_api_v.Caching.Lru.{
  LruQueryCache, get, put, move_to_end, evict_first, make_room, invalidate, clear, HybridQueryCache,
  hybrid_put, hybrid_get,
}
use salesinfo_api_v.Caching.Lru.Coherence.{IsValid}
use salesinfo_api_v.Caching.Lru.History.{
  Stored, outlived, Call, gets, puts, run, step, note, latest,
}
use salesinfo_api_v.Caching.Lru.Served.{get-latest}
use salesinfo_api_v.Caching.PersistenceQueue
use salesinfo_api_v.Caching.PersistenceQueue.{
  PersistenceQueue, start, submit, take_job, finish, returns, is_full,
}
use salesinfo_api_v.Caching.PersistenceQueue.Accounts.{
  Reach, here, next, starts, submits, takes, finishes, IsBalanced, Reach-init-IsBalanced,
}

-- What the tests compute with.
code : Unit {0}
unfolding get put move_to_end evict_first make_room Lru.init entry is_expired record_access lookup
    assign delete ℕ_discrete run step latest note hybrid_put hybrid_get
code = tt

-- Key 1, key 2, a hit on key 1, and key 3, which evicts key 2.
abbrev calls : List (Call ℕ ℕ)
calls = puts 1 10 (some 60) 0 ∷ puts 2 20 (some 60) 1 ∷ gets 1 2 ∷ puts 3 30 none 3 ∷ []

abbrev full : LruQueryCache ℕ ℕ
full = record {
  max_size = 2;
  cache =
      (1, record { value = 10; ttl = some 60; created_at = 0; accessed_at = 2; access_count = 1 })
      ∷ (3, record { value = 30; ttl = none; created_at = 3; accessed_at = 3; access_count = 0 })
      ∷ [];
  hits = 1;
  misses = 0;
}

run_test : run ℕ_discrete (Lru.init 2) calls ≡ some full
unfolding code
run_test = refl

full_hit : (get ℕ_discrete full 1 50).1 ≡ some 10
unfolding code
full_hit = refl

get-latest_example :
    (s : Stored ℕ) × (latest ℕ_discrete (λ j. none) calls 1 ≡ some s)
    × (s.value ≡ 10)
    × (outlived s 50 ≡ false)
get-latest_example = get-latest ℕ_discrete 2 calls full 1 50 10 (omega arith) run_test full_hit

full-IsValid : IsValid full
full-IsValid = record {
  positive = omega arith;
  dict = ((omega arith, tt), (tt, tt));
  bounded = omega arith;
}

-- A put into the full cache evicts key 1.
abbrev after_put : LruQueryCache ℕ ℕ
after_put = record full {
  cache =
      (3, record { value = 30; ttl = none; created_at = 3; accessed_at = 3; access_count = 0 })
      ∷ (4, record { value = 40; ttl = some 9; created_at = 5; accessed_at = 5; access_count = 0 })
      ∷ [];
}

put_test : put ℕ_discrete full 4 40 (some 9) 5 ≡ some after_put
unfolding code
put_test = refl

abbrev hybrid : HybridQueryCache ℕ ℕ
hybrid = record { store = full; default_ttl = 9 }

hybrid_test :
    hybrid_put ℕ_discrete hybrid 4 40 none 5 ≡ some (record { store = after_put; default_ttl = 9 })
unfolding code
hybrid_test = refl

-- One job is submitted, taken and finished; a second is queued; a third is dropped.
abbrev busy : PersistenceQueue
busy =
    (submit
      (submit (finish (take_job (submit (start (PersistenceQueue.init 1 3)) 0).0) 0 returns 5) 6).0
      7).0

busy_history : Reach (PersistenceQueue.init 1 3) busy 3 0
unfolding PersistenceQueue.init start submit take_job finish
busy_history =
    next
      (next
        (next
          (next (next (next here starts refl refl) (submits 0 1 refl) refl refl) takes refl refl)
          (finishes 0 5 returns 0 (omega arith) refl) refl refl)
        (submits 6 1 refl) refl refl)
      (submits 7 1 refl) refl refl

Reach-init-IsBalanced_example : IsBalanced 3 0 busy
Reach-init-IsBalanced_example = Reach-init-IsBalanced 1 3 3 0 busy busy_history
