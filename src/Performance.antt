-- ===== src/Performance.antt =====
-- The performance foundation of core/performance.
pub mod Histogram
pub mod Aggregator
pub mod Registry
pub mod Trace
pub mod Profiler
pub mod AdaptiveSampler
pub mod Merge
