-- ===== src/Mission/Policy.antt =====
-- cli/src/mission/policy.ts: the deterministic validation of a plan candidate.
pub mod Graph
pub mod Decision
pub mod Multisets
pub mod Refs
pub mod Validate
pub mod Spec
