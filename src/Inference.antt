-- ===== src/Inference.antt =====
-- cli/src/inference/provider-resilience.ts: the bounds on calls to model providers.
pub mod Circuit
pub mod Retry
mod Tests
pub mod Limiter
pub mod Quota
