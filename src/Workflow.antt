-- ===== src/Workflow.antt =====
-- Stopping and cleaning up in apps/control-api/session_workflow.py.
pub mod World
pub mod Cleanup
pub mod Stop
pub mod Provision
pub mod Emits
pub mod Makes
pub mod Order
pub mod Created
pub mod Safety
pub mod Revocation
mod Examples
