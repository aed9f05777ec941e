-- ===== src/Caching.antt =====
-- The query caches of core/db/cache.py, and the queue of core/caching.
pub mod Entry
pub mod Lru
pub mod Ttl
pub mod ResultCache
pub mod Coordinator
pub mod PersistenceQueue
