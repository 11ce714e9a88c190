-- ===== src/Session.antt =====
-- apps/control-api/session_store.py: the Session store.
pub mod Status
pub mod Value
pub mod Json
pub mod Record
pub mod Disk
pub mod Events
pub mod Leases
pub mod Prepare
pub mod Provision
pub mod Ingest
pub mod Media
pub mod Node
pub mod Crash
pub mod Edges
pub mod Moves
pub mod Outcome
pub mod Lifecycle
pub mod NodeMoves
pub mod History
pub mod Reach
pub mod Slots
pub mod Bound
pub mod Exclusion
pub mod Takeover
pub mod Ownership
pub mod Command
pub mod Log
pub mod Heartbeat
pub mod Release
pub mod Reports
pub mod Persisted
pub mod Holding
pub mod Recovery
mod Examples
mod ReportExamples
mod NodeExamples
