-- ===== src/AuthGuard.antt =====
-- The lockouts of ingest authentication in apps/control-api/ingest_auth_guard.py.
pub mod Bucket
pub mod Compact
pub mod Guard
pub mod Bounded
pub mod Calls
pub mod Lockout
mod Examples
