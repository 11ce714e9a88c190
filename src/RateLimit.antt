-- ===== src/RateLimit.antt =====
-- The limits on authentication attempts of apps/control-api/auth_rate_limit.py.
pub mod Config
pub mod Attempt
pub mod Shard
pub mod Table
pub mod Quota
pub mod Release
mod Examples
