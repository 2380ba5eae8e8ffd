-- ===== src/Engine.antt =====
-- The workflow engine.
pub mod Workspaces
pub mod State
pub mod Events
pub mod Scheduler
pub mod Retry
pub mod Routing
pub mod Launch
pub mod Settle
pub mod Integrate
pub mod Lifecycle
pub mod Recovery
pub mod Admission
pub mod Transitions
