-- ===== src/Mission/Engine.antt =====
-- cli/src/mission/mission-engine.ts: the operations on Missions, plans and invocations.
pub mod Services
pub mod Attempts
pub mod Results
pub mod Rows
pub mod Late
pub mod Retry
pub mod Delivery
pub mod Cancel
pub mod Steps
pub mod Verify
pub mod Lifecycle
pub mod Dispatch
pub mod Approvals
