-- ===== src/Pool.antt =====
-- The connection pools of core/db/pool.
pub mod Adaptive
pub mod Connections
pub mod Slots
pub mod Sync
pub mod Async
