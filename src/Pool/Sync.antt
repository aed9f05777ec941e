-- ===== src/Pool/Sync.antt =====
-- core/db/pool/sync_pool.py: the pool of connections that threads share. A function is what one
-- thread does while it holds the lock; in between any other thread may run. The clock is read once
-- in each such section. A placeholder object is the number that `id` gives, as a connection is.
pub mod Metrics
pub mod Steps
pub mod Outcomes
use salesinfo_api_v.Base.{
  ℕ, suc, ◌+◌, ◌-◌, Bool, true, false, ◌&&◌, ◌||◌, ltb, leb, ◌==◌, if◌then◌else◌, List, [], ◌∷◌,
  ◌++◌, map, Option, none, some, length, ℕ_discrete,
}
use salesinfo_api_v.Base.Dict.{lookup, assign, delete}
use salesinfo_api_v.Performance.Histogram.{Histogram, observe}
use salesinfo_api_v.Pool.Adaptive.{AdaptiveSizer}
use salesinfo_api_v.Pool.Connections.{
  PoolConnection, Idle, heappush, push_recent, checked_out, connections,
}

-- A slot of `_in_use` is a connection, or `none` where one is being created.
pub record SyncConnectionPool : Type 0 where
  pub available : List Idle
  pub in_use : List (ℕ × Option PoolConnection)
  pub timeout : ℕ
  pub counter : ℕ
  pub current_waiters : ℕ
  pub total_waiters_ever : ℕ
  pub requests : ℕ
  pub hits : ℕ
  pub misses : ℕ
  pub wait_time : ℕ
  pub timeouts : ℕ
  pub successful_acquires : ℕ
  pub connection_creation_count : ℕ
  pub connection_creation_time : ℕ
  pub broken_evicted : ℕ
  pub wait_histogram : Option Histogram
  pub recent_waits : List ℕ
  pub recent_window : ℕ
  pub sizer : AdaptiveSizer

unfoldable pub init : AdaptiveSizer → ℕ → Option Histogram → SyncConnectionPool
init sizer timeout wait_histogram = record {
  available = [];
  in_use = [];
  timeout = timeout;
  counter = 0;
  current_waiters = 0;
  total_waiters_ever = 0;
  requests = 0;
  hits = 0;
  misses = 0;
  wait_time = 0;
  timeouts = 0;
  successful_acquires = 0;
  connection_creation_count = 0;
  connection_creation_time = 0;
  broken_evicted = 0;
  wait_histogram = wait_histogram;
  recent_waits = [];
  recent_window = 50;
  sizer = sizer;
}

-- The histogram is fed milliseconds, which are the nanoseconds counted in millionths.
unfoldable pub record_wait : SyncConnectionPool → ℕ → SyncConnectionPool
record_wait p wait = record p {
  wait_histogram = elim p.wait_histogram [ none ↦ none | some h ↦ some (observe h wait) ];
  recent_waits = push_recent p.recent_window p.recent_waits wait;
}

unfoldable pub record_acquire : SyncConnectionPool → ℕ → ℕ → Bool → SyncConnectionPool
record_acquire p start now hit =
    record_wait
      (record p {
        wait_time = p.wait_time + (now - start);
        successful_acquires = p.successful_acquires + 1;
        hits = if hit then p.hits + 1 else p.hits;
      })
      (now - start)

abbrev pub lend : SyncConnectionPool → ℕ → ℕ → SyncConnectionPool
lend p conn now = record p {
  in_use = assign ℕ_discrete conn (some (checked_out conn now)) p.in_use;
}

-- How a pass of the loop in `acquire` ends.
pub data Turn : Type 0 where
  got : ℕ → Turn
  reserved waiting timed_out : Turn

-- `_requests += 1`, before the lock is taken.
unfoldable pub request : SyncConnectionPool → SyncConnectionPool
request p = record p { requests = p.requests + 1 }

abbrev pub count_waiter : SyncConnectionPool → Bool → SyncConnectionPool
count_waiter p true = p
count_waiter p false = record p {
  current_waiters = p.current_waiters + 1;
  total_waiters_ever = p.total_waiters_ever + 1;
}

abbrev pub no_room : SyncConnectionPool → ℕ → ℕ → Bool → SyncConnectionPool × Turn
no_room p start now counted =
    let q = count_waiter p counted in
    if leb (start + p.timeout) now
    then (
      record q { timeouts = q.timeouts + 1; wait_time = q.wait_time + (now - start) },
      timed_out,
    )
    else (q, waiting)

abbrev pub no_idle : SyncConnectionPool → ℕ → ℕ → Bool → ℕ → SyncConnectionPool × Turn
no_idle p start now counted key =
    if ltb (length p.in_use) p.sizer.current
    then (record p { in_use = assign ℕ_discrete key none p.in_use }, reserved)
    else no_room p start now counted

-- One pass of the loop. `counted` is `counted_waiter`, `key` the number of the placeholder object.
unfoldable pub attempt : SyncConnectionPool → ℕ → ℕ → Bool → ℕ → SyncConnectionPool × Turn
attempt p start now counted key = elim p.available [
  | [] ↦ no_idle p start now counted key
  | e ∷ rest ↦
      (lend (record_acquire (record p { available = rest }) start now true) e.conn now, got e.conn)
]

-- `_create()` raised: the reservation is given back.
unfoldable pub create_failed : SyncConnectionPool → ℕ → SyncConnectionPool
create_failed p key = record p { in_use = delete ℕ_discrete key p.in_use }

-- `_create()` returned `conn`.
unfoldable pub created : SyncConnectionPool → ℕ → ℕ → ℕ → ℕ → ℕ → SyncConnectionPool
created p key conn start create_start now =
    lend
      (record_acquire
        (record p {
          in_use = delete ℕ_discrete key p.in_use;
          connection_creation_count = p.connection_creation_count + 1;
          connection_creation_time = p.connection_creation_time + (now - create_start);
          misses = p.misses + 1;
        })
        start now false)
      conn now

-- The `finally` of `acquire`.
unfoldable pub leave : SyncConnectionPool → Bool → SyncConnectionPool
leave p counted = if counted then record p { current_waiters = p.current_waiters - 1 } else p

-- The pool, and whether a waiting thread is notified.
abbrev pub give_back : SyncConnectionPool → Bool → PoolConnection → ℕ → SyncConnectionPool × Bool
give_back p is_broken pc conn =
    if is_broken then (record p { broken_evicted = p.broken_evicted + 1 }, true) else (
      record p {
        available =
            heappush (record { created_at = pc.created_at; counter = p.counter; conn = conn })
              p.available;
        counter = p.counter + 1;
      },
      true,
    )

abbrev pub taken_out : SyncConnectionPool → ℕ → SyncConnectionPool
taken_out p conn = record p { in_use = delete ℕ_discrete conn p.in_use }

unfoldable pub release : SyncConnectionPool → ℕ → Bool → SyncConnectionPool × Bool
release p conn is_broken = elim (lookup ℕ_discrete conn p.in_use) [
  | none ↦ (p, false)
  | some none ↦ (taken_out p conn, false)
  | some (some pc) ↦ give_back (taken_out p conn) is_broken pc conn
]

-- The emptied pool, and the connections that are then closed.
unfoldable pub close_all : SyncConnectionPool → SyncConnectionPool × List ℕ
close_all p = (
  record p { available = []; in_use = [] },
  map (λ e. e.conn) p.available ++ connections p.in_use,
)
