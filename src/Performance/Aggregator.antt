-- ===== src/Performance/Aggregator.antt =====
-- core/performance/aggregator.py, `MetricsAggregator`, with the counters and gauges of
-- core/performance/metric.py. `T` is the type of the sorted tuples of tags, so that a name and a `T` are a
-- key. A streaming histogram is the list of the values that it has observed, newest last.
pub mod Totals
use salesinfo_api_v.Base.{
  ℕ, ◌+◌, ◌==◌, Bool, true, false, if◌then◌else◌, List, [], ◌∷◌, ◌++◌, Option, none, some,
}
use salesinfo_api_v.Base.Dict.{lookup, assign}

pub data MetricType : Type 0 where
  counter gauge histogram timer event trace : MetricType

-- The value of the enumeration's member, which `is` compares.
abbrev pub auto : MetricType → ℕ
auto counter = 1
auto gauge = 2
auto histogram = 3
auto timer = 4
auto event = 5
auto trace = 6

-- A whole number: `pos n` is n, `negsuc n` is -(n + 1).
pub data MetricValue : Type 0 where
  pos negsuc : ℕ → MetricValue

pub record MetricPoint (N T : Type 0) : Type 0 where
  pub name : N
  pub metric_type : MetricType
  pub value : MetricValue
  pub tags : T

pub record Aggregator (N T : Type 0) : Type 0 where
  pub counters : List ((N × T) × ℕ)
  pub gauges : List ((N × T) × MetricValue)
  pub histograms : List ((N × T) × List MetricValue)
  pub metric_types : List (N × MetricType)

abbrev pub empty : {N T : Type 0} → Aggregator N T
empty = record { counters = []; gauges = []; histograms = []; metric_types = [] }

abbrev pub key : {N T : Type 0} → MetricPoint N T → N × T
key p = (p.name, p.tags)

-- What a dictionary has under a key, or a new entry.
abbrev pub or_new : {A : Type 0} → A → Option A → A
or_new a none = a
or_new a (some b) = b

-- `Counter.increment`: the value, and false for a negative amount, which raises.
abbrev pub increment : ℕ → MetricValue → ℕ × Bool
increment value (pos amount) = (value + amount, true)
increment value (negsuc n) = (value, false)

module _ {N T : Type 0} (dec_name : Discrete N) where
  -- The first part of `ingest_one`: a name keeps its type; false is the MetricStateError.
  unfoldable pub ensure_type : Aggregator N T → MetricPoint N T → Aggregator N T × Bool
  ensure_type a p = elim (lookup dec_name p.name a.metric_types) [
    | none ↦ (record a { metric_types = assign dec_name p.name p.metric_type a.metric_types }, true)
    | some existing ↦ (a, auto existing == auto p.metric_type)
  ]

module _ {N T : Type 0} (dec_key : Discrete (N × T)) where
  -- The counter is there, with 0, before its increment raises.
  unfoldable pub add_to_counter : Aggregator N T → MetricPoint N T → Aggregator N T × Bool
  add_to_counter a p =
      let r = increment (or_new 0 (lookup dec_key (key p) a.counters)) p.value in
      (record a { counters = assign dec_key (key p) r.0 a.counters }, r.1)

  abbrev pub observe : Aggregator N T → MetricPoint N T → Aggregator N T
  observe a p =
      let values = or_new [] (lookup dec_key (key p) a.histograms) in
      record a { histograms = assign dec_key (key p) (values ++ p.value ∷ []) a.histograms }

  -- The last part of `ingest_one`.
  unfoldable pub fold_point : Aggregator N T → MetricPoint N T → Aggregator N T × Bool
  fold_point a p = elim p.metric_type [
    | counter ↦ add_to_counter a p
    | gauge ↦ (record a { gauges = assign dec_key (key p) p.value a.gauges }, true)
    | histogram ↦ (observe a p, true)
    | timer ↦ (observe a p, true)
    | event ↦ (a, true)
    | trace ↦ (a, true)
  ]

module _ {N T : Type 0} (dec_name : Discrete N) (dec_key : Discrete (N × T)) where
  unfoldable pub ingest_one : Aggregator N T → MetricPoint N T → Aggregator N T × Bool
  ingest_one a p =
      let c = ensure_type dec_name a p in
      let f = fold_point dec_key c.0 p in if c.1 then f else (c.0, false)

  -- Where a point raises, the points before it stay folded in.
  unfoldable pub ingest : Aggregator N T → List (MetricPoint N T) → Aggregator N T × Bool
  ingest a [] = (a, true)
  ingest a (p ∷ points) =
      let r = ingest_one a p in let rest = ingest r.0 points in if r.1 then rest else (r.0, false)
