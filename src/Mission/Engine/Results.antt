-- ===== src/Mission/Engine/Results.antt =====
-- recordInvocationResultInternal and recordLateCancelledFacts of cli/src/mission/mission-engine.ts,
-- from where the invocation and its Mission are read to where the new row is written.
use ouroboros_runtime.Base.{
  ℕ, ◌+◌, max, Bool, true, false, not, ◌&&◌, ◌||◌, Option, none, some, List, last?, length, nat_beq,
  is_some, if◌then◌else◌, Result, ok, ◌>>=◌, ◌>>◌, reject_if,
}
use ouroboros_runtime.Base.Text.{text_eq, text}
use ouroboros_runtime.Mission.Contracts.{
  CapabilityInvocation, CapabilityInvocationAttempt, CapabilityInvocationReconciliation,
  InvocationResult, InvocationStatus, EvidenceRef, OwnerVerification, OwnerVerificationState,
  ReconciliationState, ReconciliationOutcome, status_is, is_invocation_terminal,
  has_uncertain_delivery, is_invocation_update_allowed, rejects,
}
use ouroboros_runtime.Mission.Engine.Services.{Services, EngineError, option_or}
use ouroboros_runtime.Mission.Engine.Attempts.{
  merge_evidence_refs, is_not_submitted, update_attempt, update_delivery, attest,
}

-- What an operation leaves: the row as it was, or a row to write.
pub data Outcome : Type 0 where
  unchanged : Outcome
  updated : CapabilityInvocation → Outcome

abbrev pub is_pending_reconciliation : ReconciliationState → Bool
is_pending_reconciliation ReconciliationState.pending = true
is_pending_reconciliation _ = false

abbrev pub is_resolved : ReconciliationState → Bool
is_resolved ReconciliationState.resolved = true
is_resolved _ = false

-- ownerVerification ? verified ? "verified" : "rejected" : the state that was
abbrev pub owner_state : Option OwnerVerification → OwnerVerificationState → OwnerVerificationState
owner_state none s = s
owner_state (some v) s =
    if v.verified then OwnerVerificationState.verified else OwnerVerificationState.rejected

-- The attested verdict of an optional claim.
abbrev pub attest_claim :
    Services
    → Option OwnerVerification
    → CapabilityInvocation
    → Result EngineError (Option OwnerVerification)
attest_claim env none invocation = ok none
attest_claim env (some claim) invocation = attest env claim invocation >>= λ v. ok (some v)

-- A negative verdict of the owner stays; otherwise the new one replaces the old.
abbrev pub next_owner : CapabilityInvocation → Option OwnerVerification → Option OwnerVerification
next_owner invocation attested =
    if rejects invocation.owner_verification
    then invocation.owner_verification
    else option_or attested invocation.owner_verification

-- A rejected result that claims completion is recorded as a failure.
abbrev pub result_status : Option OwnerVerification → InvocationStatus → InvocationStatus
result_status owner status =
    if rejects owner && status_is status InvocationStatus.completed
    then InvocationStatus.failed
    else status

unfoldable pub next_reconciliation :
    CapabilityInvocationReconciliation → InvocationStatus → ℕ → CapabilityInvocationReconciliation
next_reconciliation r InvocationStatus.completed now = record r {
  state = ReconciliationState.resolved;
  outcome = some ReconciliationOutcome.performed;
  last_checked_at = some now;
  next_action = none;
}
next_reconciliation r InvocationStatus.failed now = record r {
  state = ReconciliationState.resolved;
  outcome = some ReconciliationOutcome.not_performed;
  last_checked_at = some now;
  next_action = none;
}
next_reconciliation r InvocationStatus.running now = record r {
  state = ReconciliationState.pending;
  outcome = some ReconciliationOutcome.unknown;
  last_checked_at = some now;
  next_action = some (text "reconcile running invocation again");
}
next_reconciliation r InvocationStatus.blocked now = record r {
  state = ReconciliationState.pending;
  outcome = some ReconciliationOutcome.unknown;
  last_checked_at = some now;
  next_action = some (text "reconcile blocked invocation before any retry");
}
next_reconciliation r _ now = r

-- `(attempts.at(-1)?.attempt ?? 0) + 1`
abbrev pub after_last_attempt : List CapabilityInvocationAttempt → ℕ
after_last_attempt attempts = elim (last? attempts) [ none ↦ 1 | some a ↦ a.attempt + 1 ]

module _ (env : Services) where
  -- The guards in front of the attestation, in their order.
  unfoldable pub guard_result :
      Bool → CapabilityInvocation → InvocationStatus → Result EngineError (Unit {0})
  guard_result from_reconciliation invocation status =
      let handed_off = not (is_not_submitted invocation.delivery.state) in
      let reconciliation_allowed =
        from_reconciliation
        && is_pending_reconciliation invocation.reconciliation.state
        && handed_off in
      let pre_handoff_failure = status_is status InvocationStatus.failed && not handed_off in
      let result_before_handoff = not handed_off && not pre_handoff_failure in
      let active =
        status_is invocation.status InvocationStatus.dispatched
        || status_is invocation.status InvocationStatus.running in
      reject_if (from_reconciliation && not reconciliation_allowed)
        EngineError.no_pending_reconciliation
      >> reject_if
          (not from_reconciliation
            && not pre_handoff_failure
            && (result_before_handoff || not active))
          EngineError.no_handoff
      >> reject_if
          (status_is status InvocationStatus.pending
            || status_is status InvocationStatus.dispatched)
          EngineError.pre_handoff_state
      >> reject_if
          (not from_reconciliation
            && has_uncertain_delivery invocation
            && not (status_is status InvocationStatus.blocked))
          EngineError.uncertain_delivery

  -- The row that is written for a status.
  unfoldable pub result_row :
      CapabilityInvocation
      → InvocationResult
      → InvocationStatus
      → Option OwnerVerification
      → List EvidenceRef
      → CapabilityInvocation
  result_row invocation result status owner refs =
      let summary = env.sanitize_text result.summary in
      let is_failed = status_is status InvocationStatus.failed in
      let completed_at =
        option_or invocation.completed_at
          (option_or result.completed_at (if is_failed then some env.now else none)) in
      let attempts = update_attempt invocation status completed_at summary in
      let tried = max invocation.retry.attempt (after_last_attempt attempts) in
      record invocation {
        status = status;
        completed_at = completed_at;
        result_refs = merge_evidence_refs invocation.result_refs refs;
        error = if is_failed then some summary else invocation.error;
        owner_verification = owner;
        owner_verification_state = owner_state owner invocation.owner_verification_state;
        attempts = attempts;
        delivery = update_delivery invocation status completed_at;
        reconciliation = next_reconciliation invocation.reconciliation status env.now;
        retry =
            if is_failed then record (invocation.retry) { attempt = tried } else invocation.retry;
        updated_at = env.now;
      }

  -- A repeated failure that brings no evidence and no new verdict.
  abbrev pub is_repeated_failure :
      CapabilityInvocation → InvocationStatus → Option OwnerVerification → List EvidenceRef → Bool
  is_repeated_failure invocation status attested refs =
      status_is invocation.status InvocationStatus.failed
      && status_is status InvocationStatus.failed
      && nat_beq (length (merge_evidence_refs invocation.result_refs refs))
          (length invocation.result_refs)
      && (rejects invocation.owner_verification || not (is_some attested))

  -- recordInvocationResultInternal, for an invocation that is not cancelled.
  unfoldable pub apply_result :
      Bool
      → CapabilityInvocation
      → InvocationResult
      → List EvidenceRef
      → Option OwnerVerification
      → Result EngineError Outcome
  apply_result from_reconciliation invocation result refs claim =
      reject_if (status_is result.status InvocationStatus.cancelled) EngineError.cancellation_path
      >> (if is_invocation_terminal invocation
          then ok Outcome.unchanged
          else guard_result from_reconciliation invocation result.status
            >> (attest_claim env claim invocation >>= λ attested.
                let owner = next_owner invocation attested in
                let status = result_status owner result.status in
                reject_if (not (is_invocation_update_allowed invocation.status status))
                  EngineError.status_regression
                >> ok (
                    if is_repeated_failure invocation status attested refs
                    then Outcome.unchanged
                    else Outcome.updated (result_row invocation result status owner refs))))
