-- ===== src/Performance/Registry.antt =====
-- core/performance/registry.py, `PerformanceRegistry`: the aggregates and the bounded history of completed
-- requests with its index. A profile is its id and its metric points. The collectors that are told of a
-- profile, and the exporters, only read, and are left out.
pub mod Windows
pub mod Newest
use salesinfo_api_v.Base.{
  ℕ, ◌+◌, ltb, ◌==◌, Bool, true, false, not, ◌&&◌, if◌then◌else◌, List, [], ◌∷◌, ◌++◌, Option, none,
  some, ite, length, drop,
}
use salesinfo_api_v.Base.Dict.{lookup, assign, delete}
use salesinfo_api_v.Performance.Aggregator.{MetricPoint, Aggregator, empty, ingest}

pub record Profile (I N T : Type 0) : Type 0 where
  pub request_id : I
  pub metric_points : List (MetricPoint N T)

pub record Registry (I N T : Type 0) : Type 0 where
  pub max_request_history : ℕ
  pub aggregator : Aggregator N T
  pub history : List (Profile I N T)
  pub history_by_id : List (I × Profile I N T)
  pub total_requests_recorded : ℕ

module _ {I N T : Type 0} where
  abbrev pub init : ℕ → Registry I N T
  init max_request_history = record {
    max_request_history = max_request_history;
    aggregator = empty;
    history = [];
    history_by_id = [];
    total_requests_recorded = 0;
  }

  -- Whether the next append drops the oldest profile; a length of 0 is no bound.
  abbrev pub is_full : Registry I N T → Bool
  is_full r = not (r.max_request_history == 0) && not (ltb (length r.history) r.max_request_history)

  -- `deque.append` with `maxlen`.
  unfoldable pub append : Registry I N T → Profile I N T → List (Profile I N T)
  append r p = if is_full r then drop 1 (r.history ++ p ∷ []) else r.history ++ p ∷ []

  abbrev pub first_id : List (Profile I N T) → Option I
  first_id [] = none
  first_id (p ∷ history) = some p.request_id

  unfoldable pub evicted_id : Registry I N T → Option I
  evicted_id r = if is_full r then first_id r.history else none

  unfoldable pub reset : Registry I N T → Registry I N T
  reset r = init r.max_request_history

module _ {I N T : Type 0} (dec : Discrete I) where
  -- `del self._history_by_id[evicted_id]`: false is the KeyError.
  unfoldable pub forget : Option I → I → List (I × Profile I N T) → List (I × Profile I N T) × Bool
  forget none request_id index = (index, true)
  forget (some evicted) request_id index =
      if ite (dec evicted request_id) true false
      then (index, true)
      else elim (lookup dec evicted index) [
        | none ↦ (index, false)
        | some p ↦ (delete dec evicted index, true)
      ]

  -- `record_completed_request` after the points were folded in.
  unfoldable pub retain : Registry I N T → Profile I N T → Registry I N T × Bool
  retain r p =
      let f = forget (evicted_id r) p.request_id (assign dec p.request_id p r.history_by_id) in
      (
        record r {
          history = append r p;
          history_by_id = f.0;
          total_requests_recorded = r.total_requests_recorded + 1;
        },
        f.1,
      )

  unfoldable pub get_request : Registry I N T → I → Option (Profile I N T)
  get_request r request_id = lookup dec request_id r.history_by_id

module _ {I N T : Type 0} (dec : Discrete I) (dec_name : Discrete N)
    (dec_key : Discrete (N × T)) where
  -- The registry, and false if the call raises.
  unfoldable pub record_completed_request : Registry I N T → Profile I N T → Registry I N T × Bool
  record_completed_request r p =
      let g = ingest dec_name dec_key r.aggregator p.metric_points in
      let after = record r { aggregator = g.0 } in
      if g.1 then retain dec after p else (after, false)

  -- One profile after another; the caller goes on after a call that raises.
  unfoldable pub record_all : Registry I N T → List (Profile I N T) → Registry I N T
  record_all r [] = r
  record_all r (p ∷ profiles) = record_all (record_completed_request r p).0 profiles
