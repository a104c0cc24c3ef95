-- ===== src/Mission/Engine/Steps.antt =====
-- The rows of one invocation in time: a step for each operation of
-- cli/src/mission/mission-engine.ts that writes an invocation, and what every row keeps.
pub mod Writes
pub mod Numbers
pub mod Kept
pub mod Cancelled
pub mod Invariant
pub mod Laws
pub mod Owner
pub mod Retries
use ouroboros_runtime.Base.{
  ℕ, suc, ◌≤◌, ◌<◌, Bool, true, false, ◌≡◌, Option, List, [], ◌∷◌, length, Result, ok, In,
}
use ouroboros_runtime.Base.Text.{Text}
use ouroboros_runtime.Mission.Contracts.{
  CapabilityInvocation, CapabilityInvocationAttempt, InvocationResult, InvocationStatus,
  EvidenceRef, OwnerVerification, status_is, rejects, is_invocation_terminal,
}
use ouroboros_runtime.Mission.Engine.Services.{Services}
use ouroboros_runtime.Mission.Engine.Attempts.{is_not_submitted}
use ouroboros_runtime.Mission.Engine.Results.{Outcome, apply_result}
use ouroboros_runtime.Mission.Engine.Late.{apply_late_facts}
use ouroboros_runtime.Mission.Engine.Retry.{prepare_retry}
use ouroboros_runtime.Mission.Engine.Delivery.{
  HandoffUpdate, ReconciliationUpdate, mark_handoff, mark_reconciliation,
}
use ouroboros_runtime.Mission.Engine.Cancel.{
  CancellationOutcomeUpdate, cancel_with_mission, cancel_unsubmitted, record_cancellation_outcome,
}

-- `Step invocation row`: an operation reads `invocation` and writes `row`. Each call has services of
-- its own, since the clock moves on.
pub data Step (invocation row : CapabilityInvocation) : Type 0 where
  by_result :
      (env : Services) (from_reconciliation : Bool) (result : InvocationResult)
      (refs : List EvidenceRef) (claim : Option OwnerVerification)
      → apply_result env from_reconciliation invocation result refs claim ≡ ok (Outcome.updated row)
      → Step invocation row
  by_late_facts :
      (env : Services) (evidence : List EvidenceRef) (status : InvocationStatus)
      (refs : List EvidenceRef) (claim : Option OwnerVerification)
      → status_is invocation.status InvocationStatus.cancelled ≡ true
      → apply_late_facts env invocation evidence status refs claim ≡ ok (Outcome.updated row)
      → Step invocation row
  by_retry :
      (env : Services) (backoff_ms : Option ℕ) (correlation_id : Text)
      → prepare_retry env invocation backoff_ms correlation_id ≡ ok row
      → Step invocation row
  by_handoff :
      (env : Services) (update : HandoffUpdate)
      → mark_handoff env invocation update ≡ ok (Outcome.updated row)
      → Step invocation row
  by_reconciliation :
      (env : Services) (update : ReconciliationUpdate)
      → mark_reconciliation env invocation update ≡ ok (Outcome.updated row)
      → Step invocation row
  by_mission_cancelled :
      (env : Services) (reason : Text) (requested_by : Option Text)
      → cancel_with_mission env invocation reason requested_by ≡ Outcome.updated row
      → Step invocation row
  by_cancel :
      (env : Services) (reason : Text) (requested_by : Option Text)
      → cancel_unsubmitted env invocation reason requested_by ≡ ok (Outcome.updated row)
      → Step invocation row
  by_cancellation_outcome :
      (env : Services) (update : CancellationOutcomeUpdate)
      → record_cancellation_outcome env invocation update ≡ ok (Outcome.updated row)
      → Step invocation row

-- The rows that any number of operations make of a row.
pub data Reach (first : CapabilityInvocation) : CapabilityInvocation → Type 0 where
  here : Reach first first
  later : {row next : CapabilityInvocation} → Reach first row → Step row next → Reach first next

-- The attempts are numbered from `n` on.
unfoldable pub IsNumbered : ℕ → List CapabilityInvocationAttempt → Type 0
IsNumbered n [] = Unit
IsNumbered n (a ∷ as') = (a.attempt ≡ n) × IsNumbered (suc n) as'

-- What every durable row satisfies. The count of attempts that `retry` keeps is the number of the
-- last attempt, or the next number once that attempt has failed.
pub record IsSound (row : CapabilityInvocation) : Type 0 where
  pub failed_delivered :
      status_is row.status InvocationStatus.failed ≡ true
      → is_not_submitted row.delivery.state ≡ false
  pub completed_not_rejected :
      status_is row.status InvocationStatus.completed ≡ true
      → rejects row.owner_verification ≡ false
  pub numbered : IsNumbered 0 row.attempts
  pub some_attempt : 0 < length row.attempts
  pub at_least_last : length row.attempts ≤ suc (row.retry.attempt)
  pub at_most_next : row.retry.attempt ≤ length row.attempts
  pub within_budget : length row.attempts ≤ suc (row.retry.max_attempts)
