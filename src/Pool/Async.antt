-- ===== src/Pool/Async.antt =====
-- core/db/pool/async_pool.py: the pool of connections that coroutines share. A function is what one
-- coroutine does while it holds the lock, or between two suspensions. An event that a coroutine
-- waits on and a placeholder object are the numbers that `id` gives, as a connection is.
pub mod Line
pub mod Steps
pub mod Stranded
use salesinfo_api_v.Base.{
  ℕ, ◌+◌, ◌-◌, Bool, true, false, ltb, ◌==◌, if◌then◌else◌, List, [], ◌∷◌, ◌++◌, map, Option, none,
  some, length, ℕ_discrete,
}
use salesinfo_api_v.Base.Dict.{lookup, assign, delete}
use salesinfo_api_v.Performance.Histogram.{Histogram, observe}
use salesinfo_api_v.Pool.Adaptive.{AdaptiveSizer, adjust}
use salesinfo_api_v.Pool.Connections.{
  PoolConnection, Idle, heappush, push_recent, checked_out, connections, recent_average,
}

-- `waiters` are the events of the coroutines in line, `woken` those that `release` has set so far.
pub record AsyncConnectionPool : Type 0 where
  pub available : List Idle
  pub in_use : List (ℕ × Option PoolConnection)
  pub timeout : ℕ
  pub waiters : List ℕ
  pub woken : List ℕ
  pub counter : ℕ
  pub requests : ℕ
  pub hits : ℕ
  pub misses : ℕ
  pub wait_time : ℕ
  pub timeouts : ℕ
  pub successful_acquires : ℕ
  pub total_waiters_ever : ℕ
  pub connection_creation_count : ℕ
  pub connection_creation_time : ℕ
  pub broken_evicted : ℕ
  pub wait_histogram : Option Histogram
  pub recent_waits : List ℕ
  pub recent_window : ℕ
  pub sizer : AdaptiveSizer

unfoldable pub init : AdaptiveSizer → ℕ → Option Histogram → AsyncConnectionPool
init sizer timeout wait_histogram = record {
  available = [];
  in_use = [];
  timeout = timeout;
  waiters = [];
  woken = [];
  counter = 0;
  requests = 0;
  hits = 0;
  misses = 0;
  wait_time = 0;
  timeouts = 0;
  successful_acquires = 0;
  total_waiters_ever = 0;
  connection_creation_count = 0;
  connection_creation_time = 0;
  broken_evicted = 0;
  wait_histogram = wait_histogram;
  recent_waits = [];
  recent_window = 50;
  sizer = sizer;
}

unfoldable pub record_acquire : AsyncConnectionPool → ℕ → ℕ → Bool → AsyncConnectionPool
record_acquire p start now hit = record p {
  wait_time = p.wait_time + (now - start);
  successful_acquires = p.successful_acquires + 1;
  hits = if hit then p.hits + 1 else p.hits;
  wait_histogram = elim p.wait_histogram [ none ↦ none | some h ↦ some (observe h (now - start)) ];
  recent_waits = push_recent p.recent_window p.recent_waits (now - start);
}

abbrev pub lend : AsyncConnectionPool → ℕ → ℕ → AsyncConnectionPool
lend p conn now = record p {
  in_use = assign ℕ_discrete conn (some (checked_out conn now)) p.in_use;
}

-- How a pass of the loop in `acquire` ends.
pub data Turn : Type 0 where
  got : ℕ → Turn
  reserved queued : Turn

unfoldable pub request : AsyncConnectionPool → AsyncConnectionPool
request p = record p { requests = p.requests + 1 }

-- Whenever a pass begins, `waiter` is None: `event` is the one that the pass would create.
abbrev pub no_idle : AsyncConnectionPool → ℕ → ℕ → AsyncConnectionPool × Turn
no_idle p key event =
    if ltb (length p.in_use) p.sizer.current
    then (record p { in_use = assign ℕ_discrete key none p.in_use }, reserved)
    else (
      record p { waiters = p.waiters ++ event ∷ []; total_waiters_ever = p.total_waiters_ever + 1 },
      queued,
    )

unfoldable pub attempt : AsyncConnectionPool → ℕ → ℕ → ℕ → ℕ → AsyncConnectionPool × Turn
attempt p start now key event = elim p.available [
  | [] ↦ no_idle p key event
  | e ∷ rest ↦
      (lend (record_acquire (record p { available = rest }) start now true) e.conn now, got e.conn)
]

-- `list.remove`: the first occurrence goes, if there is one.
unfoldable pub removed : ℕ → List ℕ → List ℕ
removed event [] = []
removed event (w ∷ ws) = if w == event then ws else w ∷ removed event ws

-- The handler of `CancelledError` while the coroutine waits.
unfoldable pub cancelled : AsyncConnectionPool → ℕ → AsyncConnectionPool
cancelled p event = record p { waiters = removed event p.waiters }

-- The handler of `TimeoutError`.
unfoldable pub timed_out : AsyncConnectionPool → ℕ → ℕ → ℕ → AsyncConnectionPool
timed_out p event start now = record p {
  waiters = removed event p.waiters;
  timeouts = p.timeouts + 1;
  wait_time = p.wait_time + (now - start);
}

-- `_create()` raised or was cancelled: the reservation is given back.
unfoldable pub create_failed : AsyncConnectionPool → ℕ → AsyncConnectionPool
create_failed p key = record p { in_use = delete ℕ_discrete key p.in_use }

-- `_create()` returned `conn` after the time `elapsed`.
unfoldable pub created : AsyncConnectionPool → ℕ → ℕ → ℕ → ℕ → ℕ → AsyncConnectionPool
created p key conn start elapsed now =
    lend
      (record_acquire
        (record p {
          in_use = delete ℕ_discrete key p.in_use;
          connection_creation_count = p.connection_creation_count + 1;
          connection_creation_time = p.connection_creation_time + elapsed;
          misses = p.misses + 1;
        })
        start now false)
      conn now

-- `if self._waiters: self._waiters.pop(0).set()`.
unfoldable pub wake : AsyncConnectionPool → AsyncConnectionPool
wake p = elim p.waiters [ [] ↦ p | w ∷ ws ↦ record p { waiters = ws; woken = p.woken ++ w ∷ [] } ]

abbrev pub give_back : AsyncConnectionPool → Bool → PoolConnection → ℕ → AsyncConnectionPool
give_back p is_broken pc conn =
    if is_broken then record p { broken_evicted = p.broken_evicted + 1 } else record p {
      available =
          heappush (record { created_at = pc.created_at; counter = p.counter; conn = conn })
            p.available;
      counter = p.counter + 1;
    }

abbrev pub taken_out : AsyncConnectionPool → ℕ → AsyncConnectionPool
taken_out p conn = record p { in_use = delete ℕ_discrete conn p.in_use }

unfoldable pub release : AsyncConnectionPool → ℕ → Bool → AsyncConnectionPool
release p conn is_broken = elim (lookup ℕ_discrete conn p.in_use) [
  | none ↦ p
  | some none ↦ taken_out p conn
  | some (some pc) ↦ wake (give_back (taken_out p conn) is_broken pc conn)
]

-- `release` of a broken connection up to its close, which is awaited and may be cancelled: `wake` is only
-- reached when it returns.
unfoldable pub discard : AsyncConnectionPool → ℕ → AsyncConnectionPool
discard p conn = elim (lookup ℕ_discrete conn p.in_use) [
  | none ↦ p
  | some none ↦ taken_out p conn
  | some (some pc) ↦ give_back (taken_out p conn) true pc conn
]

-- The emptied pool, and the connections that are then closed.
unfoldable pub close_all : AsyncConnectionPool → AsyncConnectionPool × List ℕ
close_all p = (
  record p { available = []; in_use = [] },
  map (λ e. e.conn) p.available ++ connections p.in_use,
)

-- What `metrics` does to the pool: the sizer is fed the length of the line.
unfoldable pub resize : AsyncConnectionPool → AsyncConnectionPool
resize p = record p { sizer = adjust p.sizer (length p.waiters) (recent_average p.recent_waits) }
