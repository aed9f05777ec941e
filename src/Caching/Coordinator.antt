-- ===== src/Caching/Coordinator.antt =====
-- `QueryCacheCoordinator` of core/caching/query_cache_coordinator.py: the tags that tell which
-- cached queries read which tables, and the registry of queries in flight. A set is a list: order
-- and repetition do not matter. The result cache behind it (L2) is here only told what to drop; Resolve
-- has it with its rows.
pub mod Tags
pub mod Flights
pub mod Resolve
pub mod Entries
pub mod Current
pub mod Answers
pub mod Overtaken
use salesinfo_api_v.Base.{
  ℕ, Bool, true, false, ◌==◌, if◌then◌else◌, List, [], ◌∷◌, ◌++◌, Option, none, some,
}
use salesinfo_api_v.Base.Dict.{lookup, assign, delete}
use salesinfo_api_v.Caching.Lru.{HybridQueryCache, hybrid_invalidate, hybrid_clear}

-- A future in `inflight` is the number that `id` gives.
pub record QueryCacheCoordinator (K V T : Type 0) : Type 0 where
  pub l1 : HybridQueryCache K V
  pub inflight : List (K × ℕ)
  pub key_tables : List (K × List T)
  pub table_keys : List (T × List K)

-- `get(table, set())`.
abbrev pub keys_or_none : {K : Type 0} → Option (List K) → List K
keys_or_none none = []
keys_or_none (some keys) = keys

module _ {K T : Type 0} (dec_table : Discrete T) where
  -- The loop of `setdefault(table, set()).add(cache_key)`.
  unfoldable pub add_key : K → List T → List (T × List K) → List (T × List K)
  add_key key [] index = index
  add_key key (table ∷ tables) index =
      add_key key tables
        (assign dec_table table (key ∷ keys_or_none (lookup dec_table table index)) index)

  -- The loop of `keys_to_drop |= _table_keys.pop(table, set())`.
  unfoldable pub pop_tables : List T → List (T × List K) → List K × List (T × List K)
  pop_tables [] index = ([], index)
  pop_tables (table ∷ tables) index =
      let rest = pop_tables tables (delete dec_table table index) in
      (keys_or_none (lookup dec_table table index) ++ rest.0, rest.1)

module _ {K T : Type 0} (dec : Discrete K) where
  unfoldable pub pop_keys : List K → List (K × List T) → List (K × List T)
  pop_keys [] tagged = tagged
  pop_keys (key ∷ keys) tagged = pop_keys keys (delete dec key tagged)

module _ {K V : Type 0} (dec : Discrete K) where
  unfoldable pub invalidate_keys : List K → HybridQueryCache K V → HybridQueryCache K V
  invalidate_keys [] l1 = l1
  invalidate_keys (key ∷ keys) l1 = invalidate_keys keys (hybrid_invalidate dec l1 key)

module _ {K V T : Type 0} (dec : Discrete K) (dec_table : Discrete T) where
  unfoldable pub tag_tables : QueryCacheCoordinator K V T → K → List T → QueryCacheCoordinator K V T
  tag_tables c key [] = c
  tag_tables c key (table ∷ tables) = record c {
    key_tables = assign dec key (table ∷ tables) c.key_tables;
    table_keys = add_key dec_table key (table ∷ tables) c.table_keys;
  }

  abbrev pub drop_keys :
      QueryCacheCoordinator K V T
      → List T
      → List K
      → List (T × List K)
      → QueryCacheCoordinator K V T × Bool × List T
  drop_keys c tables [] index = (record c { table_keys = index }, false, [])
  drop_keys c tables (key ∷ keys) index = (
    record c {
      l1 = invalidate_keys dec (key ∷ keys) c.l1;
      key_tables = pop_keys dec (key ∷ keys) c.key_tables;
      table_keys = index;
    },
    true,
    tables,
  )

  -- The coordinator, the answer, and the patterns that L2 is told to invalidate.
  unfoldable pub invalidate_tables :
      QueryCacheCoordinator K V T → List T → QueryCacheCoordinator K V T × Bool × List T
  invalidate_tables c [] = (c, false, [])
  invalidate_tables c (table ∷ tables) =
      let popped = pop_tables dec_table (table ∷ tables) c.table_keys in
      drop_keys c (table ∷ tables) popped.0 popped.1

  unfoldable pub invalidate : QueryCacheCoordinator K V T → K → QueryCacheCoordinator K V T
  invalidate c key = record c { l1 = hybrid_invalidate dec c.l1 key }

  unfoldable pub clear_all : QueryCacheCoordinator K V T → QueryCacheCoordinator K V T
  clear_all c = record c { l1 = hybrid_clear dec c.l1; key_tables = []; table_keys = [] }

module _ {K : Type 0} (dec : Discrete K) where
  -- The first section under the lock of `get_or_execute`, `future` a new one: the future that the
  -- caller goes by, and whether it is the leader.
  unfoldable pub join : List (K × ℕ) → K → ℕ → List (K × ℕ) × ℕ × Bool
  join inflight key future = elim (lookup dec key inflight) [
    | none ↦ (assign dec key future inflight, future, true)
    | some known ↦ (inflight, known, false)
  ]

  -- The `finally` of the leader.
  unfoldable pub leave : List (K × ℕ) → K → ℕ → List (K × ℕ)
  leave inflight key future = elim (lookup dec key inflight) [
    | none ↦ inflight
    | some known ↦ if known == future then delete dec key inflight else inflight
  ]
