-- ===== src/Services.antt =====
-- The request services of core/services.
pub mod ResultLimits
pub mod Queries
pub mod Placeholders
pub mod Streaming
pub mod SqlPolicy
