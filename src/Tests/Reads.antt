-- ===== src/Tests/Reads.antt =====
-- Both levels of the query cache at concrete inputs. JSON is the data itself, 0 the empty result.
use salesinfo_api_v.Base.{
  ℕ, ◌≡◌, ◌==◌, refl, arith, Bool, false, inl, List, [], ◌∷◌, none, some, All, ℕ_discrete,
}
use salesinfo_api_v.Base.Dict.{lookup, assign, delete}
use salesinfo_api_v.Caching.Entry.{entry, is_expired, record_access}
use salesinfo_api_v.Caching.Lru.{
  get, put, move_to_end, evict_first, make_room, clear, hybrid_get, hybrid_put, hybrid_clear,
}
use salesinfo_api_v.Caching.ResultCache.{get_cached_result, cache_result, invalidate_cache}
use salesinfo_api_v.Caching.ResultCache
use salesinfo_api_v.Caching.Coordinator.{
  add_key, tag_tables, pop_tables, pop_keys, invalidate_keys, invalidate_tables, clear_all,
}
use salesinfo_api_v.Caching.Coordinator.Resolve.{
  l1, Caches, Query, Codec, fill_l1, resolve, get_or_execute, invalidate_after_write, run_job, land,
}
use salesinfo_api_v.Caching.Coordinator.Answers.{
  Event, reads, writes, lands, loses, answers, IsDrained, answers_lem,
}
use salesinfo_api_v.Caching.Coordinator.Overtaken.{reads_of, fill_l1-reads_of}

-- What the tests compute with.
code : Unit {0}
unfolding lookup assign delete ℕ_discrete entry is_expired record_access get put move_to_end
    evict_first make_room clear hybrid_get hybrid_put hybrid_clear get_cached_result cache_result
    ResultCache.record_access invalidate_cache add_key tag_tables pop_tables pop_keys
    invalidate_keys invalidate_tables clear_all fill_l1 resolve get_or_execute
    invalidate_after_write answers run_job land reads_of
code = tt

abbrev codec : Codec ℕ ℕ
codec = record { encode = λ v. v; decode = λ j. j; is_empty = λ v. v == 0 }

abbrev like : ℕ → ℕ → Bool
like sql pattern = sql == pattern

abbrev name : ℕ → ℕ
name table = table

abbrev start : Caches ℕ ℕ ℕ ℕ ℕ ℕ
start = record {
  coordinator = record {
    l1 = record {
      store = record { max_size = 1; cache = []; hits = 0; misses = 0 };
      default_ttl = 60;
    };
    inflight = [];
    key_tables = [];
    table_keys = [];
  };
  rows = [];
  pending = [];
}

abbrev query : ℕ → Query ℕ ℕ ℕ ℕ
query key = record { cache_key = key; sql = 10; tables = 10 ∷ []; user_id = none }

abbrev before : ℕ → ℕ
before key = 5

abbrev changed : ℕ → ℕ
changed key = 6

-- L1 has room for one query; the second read of 1 is answered by L2.
abbrev events : List (Event ℕ ℕ ℕ ℕ ℕ)
events =
    reads (query 1) 100
    ∷ reads (query 2) 101
    ∷ lands 0 101
    ∷ reads (query 1) 102
    ∷ lands 1 102
    ∷ loses 0
    ∷ writes changed false (10 ∷ [])
    ∷ reads (query 1) 103
    ∷ []

drained : IsDrained ℕ_discrete ℕ_discrete ℕ_discrete like name codec 60 start before events
unfolding code
drained = (refl, tt)

answers_lem_example :
    All
      (λ a. a.0 ≡ some a.1)
      (answers ℕ_discrete ℕ_discrete ℕ_discrete like name codec 60 start before events)
answers_lem_example =
    answers_lem ℕ_discrete ℕ_discrete ℕ_discrete like name codec 60 start before events (λ v. refl)
      (tt, (tt, (tt, (tt, (tt, (tt, (inl refl, (tt, tt)))))))) drained
      (record { room = omega arith; entries = tt; rows = tt; pending = tt })

answered :
    answers ℕ_discrete ℕ_discrete ℕ_discrete like name codec 60 start before events
    ≡ (some 5, 5) ∷ (some 5, 5) ∷ (some 5, 5) ∷ (some 6, 6) ∷ []
unfolding code
answered = refl

-- A worker that does the first job only after the write puts 5 back into L2, and the next read gets it.
abbrev late : List (Event ℕ ℕ ℕ ℕ ℕ)
late = reads (query 1) 100 ∷ writes changed false (10 ∷ []) ∷ lands 0 101 ∷ reads (query 1) 103 ∷ []

late_test :
    answers ℕ_discrete ℕ_discrete ℕ_discrete like name codec 60 start before late
    ≡ (some 5, 5) ∷ (some 5, 6) ∷ []
unfolding code
late_test = refl

-- The write comes between reading 5 and putting it into L1: at 150 the answer is still 5.
fill_l1-reads_of_example :
    (after : Caches ℕ ℕ ℕ ℕ ℕ ℕ) × (fill_l1 ℕ_discrete ℕ_discrete codec 60
        (invalidate_after_write ℕ_discrete ℕ_discrete ℕ_discrete like name false start (10 ∷ []))
        (query 1)
        5
        100
      ≡ some after)
    × All
        (λ a. a ≡ some (5, l1))
        (reads_of ℕ_discrete ℕ_discrete codec 60 after (query 1) ((6, 110) ∷ (7, 150) ∷ []))
fill_l1-reads_of_example =
    fill_l1-reads_of ℕ_discrete ℕ_discrete ℕ_discrete like name codec 60 start (query 1) (10 ∷ []) 5
      100 ((6, 110) ∷ (7, 150) ∷ []) (omega arith) (omega arith, (omega arith, tt))
