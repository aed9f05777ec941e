-- ===== src/Tests.antt =====
-- The properties at concrete inputs, and tests by evaluation.
mod Pools
mod Caches
mod Requests
mod Results
mod Expiries
mod Coroutines
mod Coordination
mod Reads
mod Policies
mod Accounts
mod Access
mod Keys
mod Schemas
mod Measurements
mod Sampling
mod Settings
mod Sessions
mod Fleet
mod Alerting
mod Statements
