-- ===== src/Caching/PersistenceQueue.antt =====
-- `CachePersistenceQueue` of core/caching/persistence_queue.py: a bounded queue of jobs and the
-- worker tasks that run them. A job is the time at which it was submitted; the list `running` has
-- those that a worker has taken and not finished. Latencies are summed in the unit of the clock.
pub mod Accounts
use salesinfo_api_v.Base.{
  ℕ, suc, ◌+◌, ◌-◌, Bool, true, false, ◌&&◌, ltb, leb, if◌then◌else◌, List, [], ◌∷◌, ◌++◌, Option,
  none, some, length, max, zero,
}

pub record PersistenceQueue : Type 0 where
  pub maxsize : ℕ
  pub num_workers : ℕ
  pub queue : List ℕ
  pub worker_tasks : ℕ
  pub running : List ℕ
  pub accepting : Bool
  pub enqueued : ℕ
  pub completed : ℕ
  pub failed : ℕ
  pub dropped : ℕ
  pub total_latency : ℕ

unfoldable pub init : ℕ → ℕ → PersistenceQueue
init maxsize workers = record {
  maxsize = maxsize;
  num_workers = workers;
  queue = [];
  worker_tasks = 0;
  running = [];
  accepting = false;
  enqueued = 0;
  completed = 0;
  failed = 0;
  dropped = 0;
  total_latency = 0;
}

unfoldable pub start : PersistenceQueue → PersistenceQueue
start q = if q.accepting then q else record q { accepting = true; worker_tasks = q.num_workers }

-- `asyncio.Queue.full`: a queue of size 0 has no bound.
abbrev pub is_full : PersistenceQueue → Bool
is_full q = ltb 0 q.maxsize && leb q.maxsize (length q.queue)

-- The answer is whether the job was taken.
unfoldable pub submit : PersistenceQueue → ℕ → PersistenceQueue × Bool
submit q now =
    if q.accepting
    then (if is_full q
        then (record q { dropped = q.dropped + 1 }, false)
        else (record q { queue = q.queue ++ now ∷ []; enqueued = q.enqueued + 1 }, true))
    else (record q { dropped = q.dropped + 1 }, false)

-- A worker of `_worker_loop` gets the oldest job.
unfoldable pub take_job : PersistenceQueue → PersistenceQueue
take_job q = elim q.queue [
  | [] ↦ q
  | job ∷ rest ↦ record q { queue = rest; running = q.running ++ job ∷ [] }
]

-- How the job of a worker ends.
pub data Ending : Type 0 where
  returns raises cancelled : Ending

abbrev pub count_ending : PersistenceQueue → Ending → PersistenceQueue
count_ending q returns = record q { completed = q.completed + 1 }
count_ending q raises = record q { failed = q.failed + 1 }
count_ending q cancelled = q

abbrev pub remove_at : List ℕ → ℕ → List ℕ
remove_at [] i = []
remove_at (x ∷ xs) zero = xs
remove_at (x ∷ xs) (suc i) = x ∷ remove_at xs i

abbrev pub job_at : List ℕ → ℕ → ℕ
job_at [] i = 0
job_at (x ∷ xs) zero = x
job_at (x ∷ xs) (suc i) = job_at xs i

-- The `except` clauses and the `finally` of `_worker_loop`, for the running job that stands at `i`.
unfoldable pub finish : PersistenceQueue → ℕ → Ending → ℕ → PersistenceQueue
finish q i ending now = record (count_ending q ending) {
  running = remove_at q.running i;
  total_latency = q.total_latency + (now - job_at q.running i);
}

-- `stop` begins: nothing more is accepted.
unfoldable pub close : PersistenceQueue → PersistenceQueue
close q = record q { accepting = false }

-- `stop` ends: the workers are gone, after each running job was cancelled by `finish`.
unfoldable pub retire : PersistenceQueue → PersistenceQueue
retire q = record q { worker_tasks = 0 }

pub record PersistenceMetrics : Type 0 where
  pub queue_depth : ℕ
  pub enqueued : ℕ
  pub completed : ℕ
  pub failed : ℕ
  pub dropped : ℕ
  pub avg_latency : ℕ × ℕ

-- The average is the exact fraction, before it is rounded.
unfoldable pub metrics : PersistenceQueue → PersistenceMetrics
metrics q = record {
  queue_depth = length q.queue;
  enqueued = q.enqueued;
  completed = q.completed;
  failed = q.failed;
  dropped = q.dropped;
  avg_latency = (q.total_latency, max 1 (q.completed + q.failed));
}
