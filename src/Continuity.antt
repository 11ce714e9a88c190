-- ===== src/Continuity.antt =====
-- The continuity runner's decisions in apps/continuity: which source is on air, and which command holds.
pub mod State
pub mod Control
pub mod Trace
mod Examples
