-- ===== src/Orchestration.antt =====
-- cli/src/utils/Semaphore.ts and cli/src/orchestration: who runs, and in which order.
pub mod Semaphore
pub mod TaskQueue
mod Tests
