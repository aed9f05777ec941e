-- ===== src/Pool/Sync/Metrics.antt =====
-- core/db/pool/metrics.py, and `metrics` of core/db/pool/sync_pool.py.
use salesinfo_api_v.Base.{ℕ, ◌+◌, ◌-◌, length, max}
use salesinfo_api_v.Pool.Adaptive.{Mean, adjust}
use salesinfo_api_v.Pool.Connections.{connections, recent_average}
use salesinfo_api_v.Pool.Sync.{SyncConnectionPool}

-- The counts of `PoolMetrics`; an average is the exact fraction, before it is rounded.
pub record PoolMetrics : Type 0 where
  pub min_connections : ℕ
  pub max_connections : ℕ
  pub current_connections : ℕ
  pub active_connections : ℕ
  pub idle_connections : ℕ
  pub queue_depth : ℕ
  pub total_waiters : ℕ
  pub total_requests : ℕ
  pub successful_acquires : ℕ
  pub timed_out_acquires : ℕ
  pub pool_hits : ℕ
  pub pool_misses : ℕ
  pub avg_wait_time : Mean
  pub connection_creation_count : ℕ
  pub broken_connections_evicted : ℕ
  pub utilization : Mean
  pub saturation : Mean

unfoldable pub resize : SyncConnectionPool → SyncConnectionPool
resize p = record p { sizer = adjust p.sizer p.current_waiters (recent_average p.recent_waits) }

abbrev pub build_pool_metrics : SyncConnectionPool → ℕ → ℕ → PoolMetrics
build_pool_metrics p active held = record {
  min_connections = p.sizer.min;
  max_connections = p.sizer.current;
  current_connections = active + length p.available;
  active_connections = active;
  idle_connections = length p.available;
  queue_depth = p.current_waiters;
  total_waiters = p.total_waiters_ever;
  total_requests = p.requests;
  successful_acquires = p.successful_acquires;
  timed_out_acquires = p.timeouts;
  pool_hits = p.hits;
  pool_misses = p.misses;
  avg_wait_time = record {
    total = p.wait_time;
    count = max 1 (p.successful_acquires + p.timeouts);
  };
  connection_creation_count = p.connection_creation_count;
  broken_connections_evicted = p.broken_evicted;
  utilization = record { total = active; count = max 1 p.sizer.current };
  saturation = record { total = active + held; count = max 1 p.sizer.current };
}

unfoldable pub metrics : SyncConnectionPool → SyncConnectionPool × PoolMetrics
unfolding resize
metrics p =
    let q = resize p in
    let active = length (connections q.in_use) in
    (q, build_pool_metrics q active (length q.in_use - active))
