-- ===== src/Tests/Measurements.antt =====
-- The performance foundation at concrete inputs. Names and tags are numbers.
use salesinfo_api_v.Base.{
  ℕ, ◌+◌, ◌*◌, ◌≤◌, ◌≡◌, ap, refl, arith, true, List, [], ◌∷◌, some, length, ℕ_discrete,
}
use salesinfo_api_v.Base.Dict.{lookup, assign, delete}
use salesinfo_api_v.Performance.Aggregator.{
  MetricType, counter, gauge, timer, event, pos, MetricPoint, empty, ensure_type, add_to_counter,
  fold_point, ingest_one, ingest,
}
use salesinfo_api_v.Performance.Aggregator.Totals.{
  counter_total, counter_value, counter_value-ingest,
}
use salesinfo_api_v.Performance.Registry.{
  Profile, Registry, init, append, evicted_id, forget, retain, get_request,
  record_completed_request, record_all,
}
use salesinfo_api_v.Performance.Registry.Windows.{newest}
use salesinfo_api_v.Performance.Registry.Newest.{index, accepted, record_all-init}
use salesinfo_api_v.Performance.Trace.{
  node, no_children, child, start, finish_current, finish, finish_loop, finish_all,
}
use salesinfo_api_v.Performance.Trace.Durations.{total_exclusive}
use salesinfo_api_v.Performance.Profiler.{
  RequestProfiler, RequestProfile, Action, enters, exits, emits, records, post_init, start_stage,
  finish_stage, emit, complete, act, act_all,
}
use salesinfo_api_v.Performance.Profiler.Complete.{IsComplete, complete-act_all}

abbrev dec_key : Discrete (ℕ × ℕ)
dec_key a b = elim (ℕ_discrete a.0 b.0) [
  | no other ↦ no (λ e. other (ap (λ (k : ℕ × ℕ). k.0) e))
  | yes same_name ↦ elim (ℕ_discrete a.1 b.1) [
    | no other ↦ no (λ e. other (ap (λ (k : ℕ × ℕ). k.1) e))
    | yes same_tags ↦ yes (λ i. (same_name i, same_tags i))
  ]
]

-- What the tests compute with.
code : Unit {0}
unfolding lookup assign delete ℕ_discrete ensure_type add_to_counter fold_point ingest_one ingest
    append evicted_id forget retain get_request record_completed_request record_all start
    finish_current finish finish_loop finish_all total_exclusive post_init start_stage finish_stage
    emit salesinfo_api_v.Performance.Profiler.event complete act act_all
code = tt

abbrev point : ℕ → MetricType → ℕ → MetricPoint ℕ ℕ
point name metric_type amount = record {
  name = name;
  metric_type = metric_type;
  value = pos amount;
  tags = 0;
}

abbrev points : List (MetricPoint ℕ ℕ)
points =
    point 1 counter 2
    ∷ point 2 gauge 5
    ∷ point 1 counter 3
    ∷ point 3 timer 9
    ∷ point 4 counter 7
    ∷ []

points_taken : (ingest ℕ_discrete dec_key empty points).1 ≡ true
unfolding code
points_taken = refl

five : counter_value dec_key (ingest ℕ_discrete dec_key empty points).0 (1, 0) ≡ 5
unfolding code
five = refl

counter_value-ingest_example :
    counter_value dec_key (ingest ℕ_discrete dec_key empty points).0 (1, 0)
    ≡ counter_total dec_key (1, 0) points + counter_value dec_key empty (1, 0)
counter_value-ingest_example =
    counter_value-ingest ℕ_discrete dec_key empty points (1, 0) points_taken

-- Request 3 uses the name of a counter for a gauge.
abbrev profile : ℕ → MetricType → Profile ℕ ℕ ℕ
profile request_id metric_type = record {
  request_id = request_id;
  metric_points = point 1 metric_type 1 ∷ [];
}

abbrev profiles : List (Profile ℕ ℕ ℕ)
profiles =
    profile 1 counter
    ∷ profile 2 counter
    ∷ profile 3 gauge
    ∷ profile 4 counter
    ∷ profile 5 counter
    ∷ []

kept :
    (record_all ℕ_discrete ℕ_discrete dec_key (init 2) profiles).history
    ≡ profile 4 counter ∷ profile 5 counter ∷ []
unfolding code
kept = refl

record_all-init_example :
    let r : Registry ℕ ℕ ℕ = record_all ℕ_discrete ℕ_discrete dec_key (init 2) profiles in
    let taken : List (Profile ℕ ℕ ℕ) = accepted ℕ_discrete ℕ_discrete dec_key empty profiles in
    (r.history ≡ newest 2 taken)
    × (r.history_by_id ≡ index (newest 2 taken))
    × (r.total_requests_recorded ≡ length taken)
    × (length r.history ≤ 2)
record_all-init_example = record_all-init ℕ_discrete ℕ_discrete dec_key 2 profiles (omega arith) (
  (omega arith, (omega arith, (omega arith, (omega arith, tt)))),
  (
    (omega arith, (omega arith, (omega arith, tt))),
    ((omega arith, (omega arith, tt)), ((omega arith, tt), (tt, tt))),
  ),
)

abbrev clock : ℕ → ℕ
clock i = 10 * i

-- Stage 7 with stage 8 inside it, and stage 9, which is still open at the end.
abbrev actions : List (Action ℕ ℕ × ℕ)
actions =
    (enters (7, 0), 10)
    ∷ (enters (8, 0), 20)
    ∷ (exits, 35)
    ∷ (emits (point 1 counter 1), 36)
    ∷ (exits, 40)
    ∷ (enters (9, 0), 50)
    ∷ (records (point 2 event 1), 51)
    ∷ []

abbrev profiler : RequestProfiler ℕ ℕ
profiler = act_all (post_init (0, 0) 1 4 5) actions

complete-act_all_example :
    (p : RequestProfile ℕ ℕ) × ((complete profiler clock 6).1 ≡ some p) × IsComplete profiler p
complete-act_all_example =
    complete-act_all (0, 0) 1 4 5 actions clock 6
      (
        omega arith,
        (
          omega arith,
          (omega arith, (omega arith, (omega arith, (omega arith, (omega arith, omega arith))))),
        ),
      )
      (λ i. omega arith)

-- The two open nodes are finished at 60 and at 70.
finished :
    (complete profiler clock 6).0.trace.root
    ≡ some (
        node
          (0, 0)
          5
          70
          (child
            (node (7, 0) 10 40 (child (node (8, 0) 20 35 no_children) no_children))
            (child (node (9, 0) 50 60 no_children) no_children)))
unfolding code
finished = refl
