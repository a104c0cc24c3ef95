-- ===== src/Mission/Engine/Late.antt =====
-- recordLateCancelledFacts of cli/src/mission/mission-engine.ts: facts of the owner about an
-- invocation that is cancelled and stays so.
use ouroboros_runtime.Base.{
  ℕ, Bool, true, false, not, ◌&&◌, ◌||◌, Option, none, some, List, length, nat_beq, is_some,
  if◌then◌else◌, ◌==◌, Result, ok, err, ◌>>=◌, ◌>>◌, reject_if,
}
use ouroboros_runtime.Base.Text.{Text, text_eq}
use ouroboros_runtime.Mission.Contracts.{
  CapabilityInvocation, CapabilityInvocationReconciliation, CapabilityInvocationDelivery,
  InvocationStatus, EvidenceRef, OwnerVerification, ReconciliationState, ReconciliationOutcome,
  DeliveryState, status_is,
}
use ouroboros_runtime.Mission.Engine.Services.{Services, EngineError, option_or}
use ouroboros_runtime.Mission.Engine.Attempts.{merge_evidence_refs, attest}
use ouroboros_runtime.Mission.Engine.Results.{Outcome, owner_state, is_resolved}
use ouroboros_runtime.Mission.Engine.Rows.{assert_row}

abbrev option_nat_beq : Option ℕ → Option ℕ → Bool
option_nat_beq none none = true
option_nat_beq (some a) (some b) = nat_beq a b
option_nat_beq _ _ = false

abbrev option_text_beq : Option Text → Option Text → Bool
option_text_beq none none = true
option_text_beq (some a) (some b) = a == b
option_text_beq _ _ = false

abbrev delivery_code : DeliveryState → ℕ
delivery_code DeliveryState.not_submitted = 0
delivery_code DeliveryState.submitted = 1
delivery_code DeliveryState.acknowledged = 2
delivery_code DeliveryState.running = 3
delivery_code DeliveryState.failed = 4
delivery_code DeliveryState.uncertain = 5

abbrev outcome_code : Option ReconciliationOutcome → ℕ
outcome_code none = 0
outcome_code (some ReconciliationOutcome.performed) = 1
outcome_code (some ReconciliationOutcome.not_performed) = 2
outcome_code (some ReconciliationOutcome.unknown) = 3

abbrev reconciliation_code : ReconciliationState → ℕ
reconciliation_code ReconciliationState.not_required = 0
reconciliation_code ReconciliationState.pending = 1
reconciliation_code ReconciliationState.resolved = 2
reconciliation_code ReconciliationState.unsupported = 3

-- Equality of the JSON texts. The support of a reconciliation is never written.
unfoldable pub same_delivery : CapabilityInvocationDelivery → CapabilityInvocationDelivery → Bool
same_delivery a b =
    nat_beq (delivery_code a.state) (delivery_code b.state)
    && option_nat_beq a.acknowledged_at b.acknowledged_at
    && option_text_beq a.remote_operation_handle b.remote_operation_handle

unfoldable pub same_reconciliation :
    CapabilityInvocationReconciliation → CapabilityInvocationReconciliation → Bool
same_reconciliation a b =
    nat_beq (reconciliation_code a.state) (reconciliation_code b.state)
    && nat_beq (outcome_code a.outcome) (outcome_code b.outcome)
    && option_nat_beq a.last_checked_at b.last_checked_at
    && option_text_beq a.next_action b.next_action

-- observedCancellationFacts, its two parts
unfoldable pub observed_delivery :
    CapabilityInvocationDelivery → InvocationStatus → ℕ → CapabilityInvocationDelivery
observed_delivery d InvocationStatus.completed now = record d {
  state = DeliveryState.acknowledged;
  acknowledged_at = option_or d.acknowledged_at (some now);
}
observed_delivery d InvocationStatus.failed now = record d { state = DeliveryState.failed }
observed_delivery d InvocationStatus.cancelled now = record d { state = DeliveryState.failed }
observed_delivery d InvocationStatus.running now = record d { state = DeliveryState.running }
observed_delivery d _ now = record d { state = DeliveryState.uncertain }

abbrev observed :
    CapabilityInvocationReconciliation
    → ReconciliationState
    → ReconciliationOutcome
    → ℕ
    → CapabilityInvocationReconciliation
observed r state outcome now = record r {
  state = state;
  outcome = some outcome;
  last_checked_at = some now;
}

unfoldable pub observed_reconciliation :
    CapabilityInvocationReconciliation → InvocationStatus → ℕ → CapabilityInvocationReconciliation
observed_reconciliation r InvocationStatus.completed now =
    observed r ReconciliationState.resolved ReconciliationOutcome.performed now
observed_reconciliation r InvocationStatus.failed now =
    observed r ReconciliationState.resolved ReconciliationOutcome.not_performed now
observed_reconciliation r InvocationStatus.cancelled now =
    observed r ReconciliationState.resolved ReconciliationOutcome.not_performed now
observed_reconciliation r _ now =
    observed r ReconciliationState.pending ReconciliationOutcome.unknown now

module _ (env : Services) where
  -- The row that carries the late facts; a resolved reconciliation stays as it is.
  unfoldable pub late_row :
      CapabilityInvocation
      → InvocationStatus
      → OwnerVerification
      → List EvidenceRef
      → CapabilityInvocation
  late_row invocation status attested refs =
      let settled = is_resolved invocation.reconciliation.state in
      let owner = option_or invocation.owner_verification (some attested) in
      record invocation {
        result_refs = merge_evidence_refs invocation.result_refs refs;
        owner_verification = owner;
        owner_verification_state = owner_state owner invocation.owner_verification_state;
        delivery =
            if settled
            then invocation.delivery
            else observed_delivery invocation.delivery status env.now;
        reconciliation =
            if settled
            then invocation.reconciliation
            else observed_reconciliation invocation.reconciliation status env.now;
        updated_at = env.now;
      }

  -- Whether the late facts say anything new, to the row or to the Mission's evidence.
  unfoldable pub late_row_changed :
      CapabilityInvocation → CapabilityInvocation → List EvidenceRef → List EvidenceRef → Bool
  late_row_changed invocation row evidence refs =
      not (nat_beq (length row.result_refs) (length invocation.result_refs))
      || not (nat_beq (length (merge_evidence_refs evidence refs)) (length evidence))
      || not (is_some invocation.owner_verification)
      || not (same_reconciliation row.reconciliation invocation.reconciliation)
      || not (same_delivery row.delivery invocation.delivery)

  unfoldable pub apply_late_facts :
      CapabilityInvocation
      → (evidence : List EvidenceRef) → InvocationStatus
      → List EvidenceRef
      → Option OwnerVerification
      → Result EngineError Outcome
  apply_late_facts invocation evidence status refs none = err EngineError.late_facts_without_owner
  apply_late_facts invocation evidence status refs (some claim) =
      reject_if
        (status_is status InvocationStatus.pending || status_is status InvocationStatus.dispatched)
        EngineError.pre_handoff_state
      >> (attest env claim invocation >>= λ attested.
          let row = late_row invocation status attested refs in
          if late_row_changed invocation row evidence refs
          then assert_row env row >> ok (Outcome.updated row)
          else ok Outcome.unchanged)
