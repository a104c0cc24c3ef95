-- ===== src/Mission.antt =====
-- cli/src/mission: the durable Mission, its plans and its capability invocations.
pub mod Contracts
pub mod Policy
pub mod Engine
pub mod Store
pub mod Scheduler
pub mod Samples
mod Tests
