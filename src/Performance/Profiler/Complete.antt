-- ===== src/Performance/Profiler/Complete.antt =====
-- What `complete` of core/performance/request_profiler.py gives.
use salesinfo_api_v.Base.{
  ℕ, ◌+◌, ◌≤◌, ◌≡◌, refl, ap, arith, ◌||◌, true, false, List, [], ◌∷◌, ◌++◌, some, length, inl, inr,
  Bool-cases,
}
use salesinfo_api_v.Performance.Aggregator.{MetricPoint}
use salesinfo_api_v.Performance.Trace.{TraceNode, duration_ns, start, finish, is_idle, finish_all}
use salesinfo_api_v.Performance.Trace.Durations.{
  total_exclusive, total_exclusive_lem, IsNested, IsNested-root, IsTimed, IsTimed-later,
  start-IsTimed, finish-IsTimed,
}
use salesinfo_api_v.Performance.Trace.Finish.{
  IsClock, is_started, is_started-start, is_started-finish, finish_all_ends,
}
use salesinfo_api_v.Performance.Profiler.{
  RequestProfiler, RequestProfile, Action, enters, exits, emits, records, post_init, start_stage,
  finish_stage, emit, event, root_timer, profile_of, complete, act, act_all,
}

module _ {N T : Type 0} where
  -- What holds of a profiler until it is completed.
  record IsRunning (now : ℕ) (p : RequestProfiler N T) : Type 0 where
    timed : IsTimed now p.trace
    started : is_started p.trace.root p.trace.unfinished ≡ true
    running : p.completed ≡ false

  -- The times of the actions do not go back, and end before the time given.
  abbrev pub IsOrdered : ℕ → List (Action N T × ℕ) → ℕ → Type 0
  IsOrdered before [] end = before ≤ end
  IsOrdered before ((action, now) ∷ actions) end = (before ≤ now) × IsOrdered now actions end

  wait : (a b : ℕ) (p : RequestProfiler N T) → a ≤ b → IsRunning a p → IsRunning b p
  wait a b p le h = record {
    timed = IsTimed-later a b p.trace le h.timed;
    started = h.started;
    running = h.running;
  }

  start_stage-IsRunning :
      (p : RequestProfiler N T) (label : N × T) (before now : ℕ)
      → before ≤ now
      → IsRunning before p
      → IsRunning now (start_stage p label now).0
  unfolding start_stage
  start_stage-IsRunning p label before now le h =
      elim (Bool-cases (p.completed || is_idle p.trace.unfinished)) [
        | inl refused ↦ rw refused (wait before now p le h)
        | inr active ↦ rw active (record {
          timed = start-IsTimed p.trace label before now le h.timed;
          started = is_started-start p.trace label now h.started;
          running = h.running;
        })
      ]

  finish_stage-IsRunning :
      (p : RequestProfiler N T) (before now : ℕ)
      → before ≤ now
      → IsRunning before p
      → IsRunning now (finish_stage p now).0
  unfolding finish_stage
  finish_stage-IsRunning p before now le h =
      let timed = finish-IsTimed p.trace before now le h.timed in
      let started = is_started-finish p.trace now h.started in
      elim (Bool-cases (finish p.trace now).1) [
        | inl done ↦ rw done (record { timed = timed; started = started; running = h.running })
        | inr raised ↦ rw raised (record { timed = timed; started = started; running = h.running })
      ]

  emit-IsRunning :
      (p : RequestProfiler N T) (point : MetricPoint N T) (now : ℕ)
      → IsRunning now p
      → IsRunning now (emit p point).0
  unfolding emit
  emit-IsRunning p point now h =
      rw h.running (record { timed = h.timed; started = h.started; running = refl })

  act-IsRunning :
      (p : RequestProfiler N T) (action : Action N T) (before now : ℕ)
      → before ≤ now
      → IsRunning before p
      → IsRunning now (act p action now)
  unfolding act event
  act-IsRunning p (enters label) before now le h = start_stage-IsRunning p label before now le h
  act-IsRunning p exits before now le h = finish_stage-IsRunning p before now le h
  act-IsRunning p (emits point) before now le h =
      emit-IsRunning p point now (wait before now p le h)
  act-IsRunning p (records point) before now le h =
      let waited = wait before now p le h in
      record { timed = waited.timed; started = waited.started; running = waited.running }

  act_all-IsRunning :
      (p : RequestProfiler N T) (actions : List (Action N T × ℕ)) (before end : ℕ)
      → IsOrdered before actions end
      → IsRunning before p
      → IsRunning end (act_all p actions)
  unfolding act_all
  act_all-IsRunning p [] before end le h = wait before end p le h
  act_all-IsRunning p ((action, now) ∷ actions) before end o h =
      act_all-IsRunning (act p action now) actions now end o.1
        (act-IsRunning p action before now o.0 h)

  post_init-IsRunning :
      (label : N × T) (tags : T) (started_ns now : ℕ)
      → IsRunning now (post_init label tags started_ns now)
  unfolding post_init start IsNested
  post_init-IsRunning label tags started_ns now = record {
    timed = record { timed = (omega arith, tt, tt); rooted = tt };
    started = refl;
    running = refl;
  }

  -- What a profile should be: its trace has a finished root, whose duration is the sum of the exclusive
  -- durations of all nodes, and the timer of the root is the last of the metric points.
  pub record IsComplete (p : RequestProfiler N T) (profile : RequestProfile N T) : Type 0 where
    pub root : TraceNode (N × T)
    pub rooted : profile.trace.root ≡ some root
    pub closed : profile.trace.unfinished ≡ []
    pub sum : total_exclusive root ≡ duration_ns root
    pub points : profile.metric_points ≡ p.metric_points ++ root_timer p.tags (some root)

  complete_running :
      (p : RequestProfiler N T) (clock : ℕ → ℕ) (i : ℕ)
      → IsClock clock
      → IsRunning (clock i) p
      → (profile : RequestProfile N T) × ((complete p clock i).1 ≡ some profile)
        × IsComplete p profile
  unfolding complete
  complete_running p clock i mono h =
      let (ok, (root, rooted, idle), timed) =
        finish_all_ends p.trace clock i mono h.timed h.started in
      let t = (finish_all p.trace clock i).0 in
      let after : RequestProfiler N T = record p {
        trace = t;
        metric_points = p.metric_points ++ root_timer p.tags t.root;
        completed = true;
      } in
      let profile = profile_of after (clock (i + length p.trace.unfinished)) in
      (
        profile,
        rw h.running (rw ok refl),
        record {
          root = root;
          rooted = rooted;
          closed = idle;
          sum = total_exclusive_lem root (IsNested-root t root _ rooted idle timed);
          points = ap (λ r. p.metric_points ++ root_timer p.tags r) rooted;
        },
      )

  -- Whatever stages a request enters and exits, and whatever else it does with its profiler, as long as the
  -- clock never goes back: `complete` does not raise, and in its profile every node is finished, the
  -- exclusive durations of all nodes add up to the duration of the root, and the metric points
  -- are those emitted so far and then the timer of the root.
  pub complete-act_all :
      (label : N × T) (tags : T) (started_ns now : ℕ) (actions : List (Action N T × ℕ))
      (clock : ℕ → ℕ) (i : ℕ)
      → IsOrdered now actions (clock i)
      → IsClock clock
      → let p : RequestProfiler N T = act_all (post_init label tags started_ns now) actions in
        (profile : RequestProfile N T) × ((complete p clock i).1 ≡ some profile)
        × IsComplete p profile
  complete-act_all label tags started_ns now actions clock i ordered mono =
      complete_running (act_all (post_init label tags started_ns now) actions) clock i mono (
        act_all-IsRunning (post_init label tags started_ns now) actions now (clock i) ordered
          (post_init-IsRunning label tags started_ns now))
