-- ===== src/Mission/Contracts.antt =====
-- cli/src/mission/contracts.ts: the data of the Mission boundary. A timestamp is its number of
-- milliseconds, an identity or free text a `Text`, an absent optional field `none`.
mod States
mod Invocation
mod Plan
unfoldable pub use States.*
unfoldable pub use Invocation.*
unfoldable pub use Plan.*
