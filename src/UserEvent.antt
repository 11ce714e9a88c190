-- ===== src/UserEvent.antt =====
-- The limits of apps/control-api/session_event_policy.py on what users send as events.
pub mod Body
pub mod Payload
pub mod Shape
pub mod Scan
mod Examples
