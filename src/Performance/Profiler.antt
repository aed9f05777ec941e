-- ===== src/Performance/Profiler.antt =====
-- core/performance/request_profiler.py, `RequestProfiler`. A label is a name with its tags; the time stamps of
-- the metric points and what is only carried along (metadata, units, status) are left out.
pub mod Complete
use salesinfo_api_v.Base.{
  ℕ, ◌+◌, ◌-◌, ◌||◌, Bool, true, false, if◌then◌else◌, List, [], ◌∷◌, ◌++◌, Option, none, some,
  length,
}
use salesinfo_api_v.Performance.Aggregator.{MetricPoint, timer, pos}
use salesinfo_api_v.Performance.Trace.{
  TraceNode, node, OpenNode, Trace, init, duration_ns, start, finish, is_idle, finish_all,
}

pub record RequestProfiler (N T : Type 0) : Type 0 where
  pub trace : Trace (N × T)
  pub metric_points : List (MetricPoint N T)
  pub tags : T
  pub started_ns : ℕ
  pub completed : Bool

pub record RequestProfile (N T : Type 0) : Type 0 where
  pub trace : Trace (N × T)
  pub metric_points : List (MetricPoint N T)
  pub started_ns : ℕ
  pub finished_ns : ℕ
  pub duration_ns : ℕ

-- What the code of a request does with its profiler: enter and exit a stage, emit a counter or a gauge, record
-- an event.
pub data Action (N T : Type 0) : Type 0 where
  enters : N × T → Action N T
  exits : Action N T
  emits records : MetricPoint N T → Action N T

module _ {N T : Type 0} where
  -- `__post_init__` with the tags of the profiler, which are not those of the root node: the clock is read for
  -- the profiler, and then for the root node.
  unfoldable pub post_init : N × T → T → ℕ → ℕ → RequestProfiler N T
  post_init label tags started_ns now = record {
    trace = (start init label now).0;
    metric_points = [];
    tags = tags;
    started_ns = started_ns;
    completed = false;
  }

  -- The profiler, and false if the call raises, here and below.
  unfoldable pub start_stage : RequestProfiler N T → N × T → ℕ → RequestProfiler N T × Bool
  start_stage p label now =
      let r = start p.trace label now in
      if p.completed || is_idle p.trace.unfinished
      then (p, false)
      else (record p { trace = r.0 }, r.1)

  abbrev pub timer_point : N × T → ℕ → MetricPoint N T
  timer_point label duration = record {
    name = label.0;
    metric_type = timer;
    value = pos duration;
    tags = label.1;
  }

  -- The timer of the node that was active.
  abbrev pub stage_timer : List (OpenNode (N × T)) → ℕ → List (MetricPoint N T)
  stage_timer [] now = []
  stage_timer (o ∷ ancestors) now = timer_point o.label (now - o.started_ns) ∷ []

  unfoldable pub finish_stage : RequestProfiler N T → ℕ → RequestProfiler N T × Bool
  finish_stage p now =
      let r = finish p.trace now in
      if r.1
      then (
        record p {
          trace = r.0;
          metric_points = p.metric_points ++ stage_timer p.trace.unfinished now;
        },
        true,
      )
      else (record p { trace = r.0 }, false)

  unfoldable pub emit : RequestProfiler N T → MetricPoint N T → RequestProfiler N T × Bool
  emit p point =
      if p.completed
      then (p, false)
      else (record p { metric_points = p.metric_points ++ point ∷ [] }, true)

  -- An event may come after completion.
  unfoldable pub event : RequestProfiler N T → MetricPoint N T → RequestProfiler N T
  event p point = record p { metric_points = p.metric_points ++ point ∷ [] }

  -- The timer of the request has the name of the root node and the tags of the profiler.
  abbrev pub root_timer : T → Option (TraceNode (N × T)) → List (MetricPoint N T)
  root_timer tags none = []
  root_timer tags (some (node label started_ns finished_ns below)) =
      timer_point (label.0, tags) (finished_ns - started_ns) ∷ []

  abbrev pub profile_of : RequestProfiler N T → ℕ → RequestProfile N T
  profile_of p finished_ns = record {
    trace = p.trace;
    metric_points = p.metric_points;
    started_ns = p.started_ns;
    finished_ns = finished_ns;
    duration_ns = finished_ns - p.started_ns;
  }

  -- `complete`, with the readings of the clock from the i-th on; no profile if it raises.
  unfoldable pub complete :
      RequestProfiler N T → (ℕ → ℕ) → ℕ → RequestProfiler N T × Option (RequestProfile N T)
  complete p clock i =
      let r = finish_all p.trace clock i in
      let after = record p {
        trace = r.0;
        metric_points = p.metric_points ++ root_timer p.tags r.0.root;
        completed = true;
      } in
      if p.completed
      then (p, none)
      else (if r.1
          then (after, some (profile_of after (clock (i + length p.trace.unfinished))))
          else (record p { trace = r.0 }, none))

  -- One action at a time; after a call that raises the request goes on.
  unfoldable pub act : RequestProfiler N T → Action N T → ℕ → RequestProfiler N T
  act p (enters label) now = (start_stage p label now).0
  act p exits now = (finish_stage p now).0
  act p (emits point) now = (emit p point).0
  act p (records point) now = event p point

  unfoldable pub act_all : RequestProfiler N T → List (Action N T × ℕ) → RequestProfiler N T
  act_all p [] = p
  act_all p ((action, now) ∷ actions) = act_all (act p action now) actions
