-- ===== src/Lib.antt =====
-- Verification of the sales information API: connection pools, query caches, background queues, accounts
-- and access, migrations, measurements and the lifecycle of the application.
--
-- The program serves SQL queries over HTTP. A request is identified by an API key or a JWT, is
-- looked up in the in-process query cache, and runs on a connection of a pool; its result is cut
-- to the result limits. What must not delay the request, cache persistence and log records, goes
-- through queues that background tasks empty. The lifecycle manager starts and stops all of these.
--
-- Base: shared names, Boolean tests, lists over native numbers. Base.Dict is Python's dictionary.
-- Pool.Adaptive: core/db/pool/adaptive.py, `AdaptiveSizer`; `adjust` is the method.
-- Pool.Connections: core/db/pool/base.py and policy.py, `PoolConnection`, the heap of idle
--   connections (a list in the order of its keys) and the window of recent waits.
-- Pool.Slots: the invariant of idle connections, slots and size, for either pool.
-- Pool.Sync: core/db/pool/sync_pool.py. `request`, `attempt`, `created`, `create_failed` and
--   `leave` are the parts of `acquire` that run with the lock held; `release`, `close_all` and
--   `metrics` (with core/db/pool/metrics.py) are the methods. Pool.Sync.Steps lets any number of
--   threads interleave these parts, where close_all is a step only while no connection is being
--   created; Pool.Sync.Outcomes has what it does to a thread that is creating one.
-- Pool.Async: core/db/pool/async_pool.py. `request`, `attempt`, `cancelled`, `timed_out`, `created` and
--   `create_failed` are the parts of `acquire` between two suspensions; `release`, `close_all` and
--   `resize` (in `metrics`) are the methods, and `discard` is `release` of a broken connection up to the
--   close, in which it may be cancelled. Pool.Async.Steps lets any number of coroutines
--   interleave these parts, where close_all is a step only while no connection is being created.
-- Performance.Histogram: core/performance/histogram.py, the bucketed `Histogram`.
-- Caching.Entry, Caching.Lru: core/db/cache.py, `CacheEntry`, `LRUQueryCache` and
--   `HybridQueryCache`; Caching.Lru.History has the ideal store that it is compared with.
-- Caching.Ttl: core/db/cache.py, `TTLQueryCache`.
-- Caching.Coordinator: core/caching/query_cache_coordinator.py, `QueryCacheCoordinator`: the tags of
--   tables with `_tag_tables` and `invalidate_tables`, and the registry of queries in flight, where
--   `join` and `leave` are the sections under the lock of `get_or_execute`. Caching.Coordinator.Resolve has
--   `get_or_execute` for one caller, with both levels, and `_invalidate_after_write` of
--   core/services/query_service.py. What it submits to the persistence queue is pending there until a worker
--   runs it (`land`) or the queue drops it (`lose`).
-- Caching.ResultCache: core/caching/query_result_cache.py, `QueryResultCache`, the second level.
-- Caching.PersistenceQueue: core/caching/persistence_queue.py, `CachePersistenceQueue`.
-- Auth.RateLimit: `check_and_record_attempt` and `reset_attempts` of core/auth/shared_state.py,
--   which core/auth/rate_limiter.py calls.
-- Auth.Users: core/auth/authentication_service.py, `primary_role` and `update_role`, over the table of
--   core/auth/user_repository.py; `check_role` and `set_role` are its reading and its writing part.
-- Auth.Login: `authenticate` of core/auth/authentication_service.py.
-- Auth.Revocations: `get_revoked_before` and `set_revoked_before` of core/auth/shared_state.py, with the
--   cache of one process; `peek` and `fill` are the parts of a read before and after the database.
-- Auth.Middleware: `enforce_auth` of core/auth/middleware.py. Auth.Middleware.Access puts it together with
--   Auth.Revocations and Services.SqlPolicy, and Auth.Login.Session with Auth.Login.
-- Auth.ApiKeys: core/auth/api_key_service.py and core/auth/api_key_repository.py.
-- Migrations: core/db/migrations.py; `apply_migrations` is either applier, by its `Mode`.
-- Performance.Aggregator, Performance.Registry: core/performance/aggregator.py, metric.py and registry.py.
-- Performance.AdaptiveSampler: core/performance/adaptive_sampler.py, `AdaptiveSampler`.
-- Performance.Trace, Performance.Profiler: core/performance/trace.py and request_profiler.py.
-- Performance.Merge: core/performance/dashboard/merge.py, and Performance.Histogram.Percentile the function
--   `percentile_from_buckets` that it calls.
-- Configuration.Sizing: core/concurrency/cpu.py. Configuration.Settings: core/app/settings.py, `validate`, and
--   in Configuration.Settings.Environment `from_env`.
-- Sessions: the way out of `get_sync_session` and `get_async_session` in core/db/session.py, as
--   `leave_session`; Sessions.Clean lets any number of threads interleave them over Pool.Sync.
--   Sessions.Transactions and Sessions.Store: core/performance/adapters/transactions.py and
--   core/storage/application_state_store.py. The driver psycopg2 is the parameter `Driver`; what it documents
--   is stated as `RefusesInTransaction` and `IsTransactional`.
-- Lifecycle: core/app/lifecycle/manager.py, `ApplicationLifespan`, and core/app/container.py.
-- Observability.WriteQueue: core/observability/write_queue.py, `ObservabilityWriteQueue`.
-- Observability.Alerts: core/observability/alerts.py, `AlertEvaluator`.
-- Services.ResultLimits: `_apply_result_limits` of core/services/query_service.py.
-- Services.Placeholders: `translate_qmark_placeholders` of core/db/adapters/postgresql.py.
-- Services.Streaming: the loop of `fetch_bounded` of core/db/adapters/postgresql.py. Services.Queries: `run`
--   of core/services/query_service.py for a statement that reads, with that loop, the limits and both caches.
-- Services.SqlPolicy: core/db/sql_policy.py, and the gate of `QueryService.run` as `authorized`.
-- Tests: the properties at concrete inputs, and tests by evaluation.
--
-- Times are whole numbers of one unit, a clock is read once in each atomic part, and averages are
-- exact fractions: the rounding of floats is not modelled, but settings may be nan or infinite. Numbers of Python are unbounded, as
-- here. Loops recur on a list or a number; `finish_loop` and `fetch_batches` have fuel, the number
-- of unfinished nodes, each round finishing one, and one round more than there are rows. What
-- `id()` gives is a number that no other live object has. Database, locks, event loop, JSON,
-- regular expressions and what a lifecycle step does are parameters or steps of a relation. Not
-- modelled: HTTP routes, the calls that database adapters only pass on, the semaphores of query
-- costs, thread pools, logging, and the floating-point quantile estimators.
pub mod Base
pub mod Auth
pub mod Migrations
pub mod Configuration
pub mod Caching
pub mod Lifecycle
pub mod Observability
pub mod Performance
pub mod Pool
pub mod Services
pub mod Sessions
mod Tests
