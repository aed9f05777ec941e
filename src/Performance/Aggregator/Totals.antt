-- ===== src/Performance/Aggregator/Totals.antt =====
-- What the counters of `MetricsAggregator` in core/performance/aggregator.py add up to.
use salesinfo_api_v.Base.{
  ℕ, ◌+◌, ◌≢◌, ap, ◌≡◌, refl, arith, ◌∙◌, sym, true, false, List, [], ◌∷◌, some, inl, inr,
  Bool-cases, Option-cases, ite,
}
use salesinfo_api_v.Base.Dict.{lookup, assign, lookup-assign}
use salesinfo_api_v.Performance.Aggregator.{
  MetricType, counter, gauge, histogram, timer, event, trace, auto, MetricValue, pos, negsuc,
  MetricPoint, Aggregator, key, or_new, increment, ensure_type, add_to_counter, fold_point,
  ingest_one, ingest,
}

abbrev amount : MetricValue → ℕ
amount (pos n) = n
amount (negsuc n) = 0

module _ {N T : Type 0} (dec_key : Discrete (N × T)) where
  -- What a point adds to the counter of the key.
  abbrev share : N × T → MetricPoint N T → ℕ
  share k p = elim p.metric_type [
    | counter ↦ ite (dec_key (key p) k) (amount p.value) 0
    | gauge ↦ 0
    | histogram ↦ 0
    | timer ↦ 0
    | event ↦ 0
    | trace ↦ 0
  ]

  -- The sum of the amounts of all counter points with the key.
  abbrev pub counter_total : N × T → List (MetricPoint N T) → ℕ
  counter_total k [] = 0
  counter_total k (p ∷ points) = share k p + counter_total k points

  -- The value of the counter with the key, 0 if there is none.
  abbrev pub counter_value : Aggregator N T → N × T → ℕ
  counter_value a k = or_new 0 (lookup dec_key k a.counters)

  increased :
      (value : ℕ) (v : MetricValue)
      → (increment value v).1 ≡ true
      → (increment value v).0 ≡ value + amount v
  increased value (pos n) ok = refl
  increased value (negsuc n) ok = absurd (ground (arith, ok))

  add_to_counter_lem :
      (a : Aggregator N T) (p : MetricPoint N T) (k : N × T)
      → (add_to_counter dec_key a p).1 ≡ true
      → counter_value (add_to_counter dec_key a p).0 k
        ≡ ite (dec_key (key p) k) (amount p.value) 0 + counter_value a k
  unfolding add_to_counter
  add_to_counter_lem a p k ok =
      let r = increment (counter_value a (key p)) p.value in
      let more : r.0 ≡ counter_value a (key p) + amount p.value =
        increased (counter_value a (key p)) p.value ok in
      let found = lookup-assign dec_key (key p) k r.0 a.counters in
      elim (dec_key (key p) k) [
        | yes here ↦
            let there : counter_value a (key p) ≡ counter_value a k = rw here refl in
            let value : lookup dec_key k (assign dec_key (key p) r.0 a.counters) ≡ some r.0 =
              ground (arith, found, here) in
            rw value (ground (arith, more, there, here))
        | no other ↦
            let value : lookup dec_key k (assign dec_key (key p) r.0 a.counters)
                ≡ lookup dec_key k a.counters =
              ground (arith, found, other) in
            rw value (ground (arith, other))
      ]

  fold_point_lem :
      (a : Aggregator N T) (name : N) (value : MetricValue) (tags : T) (k : N × T) (t : MetricType)
      → let p : MetricPoint N T = record {
        name = name;
        metric_type = t;
        value = value;
        tags = tags;
      } in
        (fold_point dec_key a p).1 ≡ true
        → counter_value (fold_point dec_key a p).0 k ≡ share k p + counter_value a k
  unfolding fold_point
  fold_point_lem a name value tags k counter ok =
      add_to_counter_lem a
        (record { name = name; metric_type = counter; value = value; tags = tags }) k ok
  fold_point_lem a name value tags k gauge ok = omega arith
  fold_point_lem a name value tags k histogram ok = omega arith
  fold_point_lem a name value tags k timer ok = omega arith
  fold_point_lem a name value tags k event ok = omega arith
  fold_point_lem a name value tags k trace ok = omega arith

module _ {N T : Type 0} (dec_name : Discrete N) where
  ensure_type-counters :
      (a : Aggregator N T) (p : MetricPoint N T)
      → (ensure_type dec_name a p).0.counters ≡ a.counters
  unfolding ensure_type
  ensure_type-counters a p = elim (Option-cases (lookup dec_name p.name a.metric_types)) [
    | inl new ↦ rw (new, ensure_type) refl
    | inr (t, there) ↦ rw (there, ensure_type) refl
  ]

module _ {N T : Type 0} (dec_name : Discrete N) (dec_key : Discrete (N × T)) where
  ingest_one_lem :
      (a : Aggregator N T) (p : MetricPoint N T) (k : N × T)
      → (ingest_one dec_name dec_key a p).1 ≡ true
      → counter_value dec_key (ingest_one dec_name dec_key a p).0 k
        ≡ share dec_key k p + counter_value dec_key a k
  unfolding ingest_one
  ingest_one_lem a p k ok = elim (Bool-cases (ensure_type dec_name a p).1) [
    | inr refused ↦ absurd (ground (arith, ok, refused))
    | inl typed ↦
        let before = (ensure_type dec_name a p).0 in
        let same : ingest_one dec_name dec_key a p ≡ fold_point dec_key before p = rw typed refl in
        let folded =
          fold_point_lem dec_key before p.name p.value p.tags k p.metric_type
            (ap (λ r. r.1) (sym same) ∙ ok) in
        let kept : counter_value dec_key before k ≡ counter_value dec_key a k =
          ap (λ d. or_new 0 (lookup dec_key k d)) (ensure_type-counters dec_name a p) in
        ap (λ r. counter_value dec_key r.0 k) same ∙ folded ∙ rw kept refl
  ]

  -- If no point of a batch raises, each counter has grown by the sum of the amounts of the batch's counter
  -- points with its name and tags, whatever other points are among them.
  pub counter_value-ingest :
      (a : Aggregator N T) (points : List (MetricPoint N T)) (k : N × T)
      → (ingest dec_name dec_key a points).1 ≡ true
      → counter_value dec_key (ingest dec_name dec_key a points).0 k
        ≡ counter_total dec_key k points + counter_value dec_key a k
  unfolding ingest
  counter_value-ingest a [] k ok = omega arith
  counter_value-ingest a (p ∷ points) k ok = elim (Bool-cases (ingest_one dec_name dec_key a p).1) [
    | inr raised ↦ absurd (ground (arith, ok, raised))
    | inl folded ↦
        let after = (ingest_one dec_name dec_key a p).0 in
        let same : ingest dec_name dec_key a (p ∷ points) ≡ ingest dec_name dec_key after points =
          rw folded refl in
        let first = ingest_one_lem a p k folded in
        let rest = counter_value-ingest after points k (ap (λ r. r.1) (sym same) ∙ ok) in
        ap (λ r. counter_value dec_key r.0 k) same ∙ ground (arith, first, rest)
  ]

  -- A point whose name has another type already raises, and neither it nor the points after it change
  -- anything.
  ingest-retyped :
      (a : Aggregator N T) (p : MetricPoint N T) (points : List (MetricPoint N T)) (t : MetricType)
      → lookup dec_name p.name a.metric_types ≡ some t
      → auto t ≢ auto p.metric_type
      → ingest dec_name dec_key a (p ∷ points) ≡ (a, false)
  unfolding ingest ingest_one ensure_type
  ingest-retyped a p points t there n = rw (there, ensure_type) (ground (arith, n))
