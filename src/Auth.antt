-- ===== src/Auth.antt =====
-- The authentication state that all processes share: core/auth.
pub mod RateLimit
pub mod Users
pub mod Revocations
pub mod Middleware
pub mod Login
pub mod ApiKeys
