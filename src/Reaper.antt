-- ===== src/Reaper.antt =====
-- The reaper of apps/control-api/reaper.py: its sweep over the Sessions and the provider's resources.
pub mod Config
pub mod Cleanup
pub mod Stop
pub mod Sweep
pub mod Orphans
pub mod Order
pub mod Revoked
pub mod Passes
pub mod Unowned
mod Examples
