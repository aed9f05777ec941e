-- ===== src/Tests/Results.antt =====
-- Reads of core/services/query_service.py at concrete inputs: a row is a number, and its length too.
use mathlib.Core.Option
use salesinfo_api_v.Base.{
  ℕ, ◌≡◌, refl, arith, true, false, not, ◌&&◌, List, [], ◌∷◌, none, some, ℕ_discrete, Option,
}
use salesinfo_api_v.Base.Dict.{lookup, assign, delete}
use salesinfo_api_v.Services.ResultLimits.{QueryLimits, within_bytes, apply_result_limits}
use salesinfo_api_v.Services.Streaming.{is_empty, read_batch, fetch_batches, fetch_bounded}
use salesinfo_api_v.Services.Streaming.Bounded.{fetch_bounded-apply_result_limits}
use salesinfo_api_v.Services.Queries.{QueryOutcome, run_read}
use salesinfo_api_v.Services.Queries.Cached.{limited, run_read_lem}
use salesinfo_api_v.Caching.Entry.{entry, is_expired, record_access}
use salesinfo_api_v.Caching.Lru.{
  get, put, move_to_end, evict_first, make_room, hybrid_get, hybrid_put,
}
use salesinfo_api_v.Caching.ResultCache.{get_cached_result, cache_result}
use salesinfo_api_v.Caching.ResultCache
use salesinfo_api_v.Caching.Coordinator.{add_key, tag_tables}
use salesinfo_api_v.Caching.Coordinator.Resolve.{
  Caches, Query, Codec, fill_l1, resolve, get_or_execute,
}
use salesinfo_api_v.Caching.Coordinator.Current.{IsCurrent}

-- What the tests compute with.
code : Unit {0}
unfolding lookup assign delete ℕ_discrete entry is_expired record_access get put move_to_end
    evict_first make_room hybrid_get hybrid_put get_cached_result cache_result
    ResultCache.record_access add_key tag_tables fill_l1 resolve get_or_execute within_bytes
    apply_result_limits read_batch fetch_batches fetch_bounded run_read
code = tt

abbrev bytes : ℕ → ℕ
bytes row = row

abbrev limits : QueryLimits
limits = record { max_result_rows = 3; max_result_bytes = 10 }

abbrev few_bytes : List ℕ
few_bytes = 4 ∷ 5 ∷ 6 ∷ []

abbrev many_rows : List ℕ
many_rows = 1 ∷ 1 ∷ 1 ∷ 1 ∷ 1 ∷ []

-- In batches of two: the third row is over the bytes, and of five rows three are taken.
fetch_bounded-apply_result_limits_example :
    fetch_bounded bytes limits 2 few_bytes ≡ apply_result_limits bytes limits few_bytes
fetch_bounded-apply_result_limits_example =
    fetch_bounded-apply_result_limits bytes limits 2 few_bytes (omega arith)

few_bytes_test : fetch_bounded bytes limits 2 few_bytes ≡ (4 ∷ 5 ∷ [], true)
unfolding code
few_bytes_test = refl

many_rows_test : fetch_bounded bytes limits 2 many_rows ≡ (1 ∷ 1 ∷ 1 ∷ [], true)
unfolding code
many_rows_test = refl

abbrev codec : Codec (List ℕ) (List ℕ)
codec = record { encode = λ v. v; decode = λ j. j; is_empty = is_empty }

abbrev start : Caches ℕ (List ℕ) ℕ ℕ (List ℕ) ℕ
start = record {
  coordinator = record {
    l1 = record {
      store = record { max_size = 2; cache = []; hits = 0; misses = 0 };
      default_ttl = 60;
    };
    inflight = [];
    key_tables = [];
    table_keys = [];
  };
  rows = [];
  pending = [];
}

abbrev query : Query ℕ ℕ ℕ ℕ
query = record { cache_key = 1; sql = 10; tables = 10 ∷ []; user_id = none }

abbrev database : ℕ → List ℕ
database key = few_bytes

run_read_lem_example :
    (after : Caches ℕ (List ℕ) ℕ ℕ (List ℕ) ℕ) × (o : QueryOutcome ℕ) × (run_read ℕ_discrete
        ℕ_discrete codec 60 bytes limits start query
        (database 1)
        100
      ≡ some (after, o))
    × (o.data_rows ≡ limited bytes limits database 1)
    × (o.truncated ≡ (not o.cached && (apply_result_limits bytes limits (database 1)).1))
    × IsCurrent ℕ_discrete ℕ_discrete codec 60 (limited bytes limits database) after
run_read_lem_example =
    run_read_lem ℕ_discrete ℕ_discrete codec 60 bytes limits database start query 100
      (record { room = omega arith; entries = tt; rows = tt; pending = tt })

abbrev second_read :
    Option (Caches ℕ (List ℕ) ℕ ℕ (List ℕ) ℕ × QueryOutcome ℕ) → Option (QueryOutcome ℕ)
second_read none = none
second_read (some r) =
    Option.map (λ a. a.1)
      (run_read ℕ_discrete ℕ_discrete codec 60 bytes limits r.0 query (database 1) 110)

first_test :
    Option.map
      (λ a. a.1)
      (run_read ℕ_discrete ℕ_discrete codec 60 bytes limits start query (database 1) 100)
    ≡ some (record { data_rows = 4 ∷ 5 ∷ []; cached = false; truncated = true })
unfolding code
first_test = refl

-- The same rows are missing, and the answer does not say so any more.
second_test :
    second_read (run_read ℕ_discrete ℕ_discrete codec 60 bytes limits start query (database 1) 100)
    ≡ some (record { data_rows = 4 ∷ 5 ∷ []; cached = true; truncated = false })
unfolding code
second_test = refl
