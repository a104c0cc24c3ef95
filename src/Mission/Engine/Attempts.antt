-- ===== src/Mission/Engine/Attempts.antt =====
-- The helpers at the end of cli/src/mission/mission-engine.ts: evidence, attempts and delivery.
use ouroboros_runtime.Base.{
  ℕ, Bool, true, false, not, Option, none, some, List, [], ◌∷◌, ◌++◌, any, map_last, if◌then◌else◌,
  ◌==◌, Result, ok, err, ◌>>◌, reject_if,
}
use ouroboros_runtime.Base.Text.{Text, text_eq}
use ouroboros_runtime.Mission.Contracts.{
  CapabilityInvocation, CapabilityInvocationAttempt, CapabilityInvocationDelivery, AttemptState,
  DeliveryState, InvocationStatus, EvidenceRef, OwnerVerification, ReconciliationOutcome,
  CancellationState,
}
use ouroboros_runtime.Mission.Engine.Services.{Services, EngineError, check_opaque, option_or}

-- mergeEvidenceRefs: a reference of a known id is not added.
abbrev has_ref : Text → List EvidenceRef → Bool
has_ref id refs = any (λ (r : EvidenceRef). r.ref_id == id) refs

unfoldable pub merge_evidence_refs : List EvidenceRef → List EvidenceRef → List EvidenceRef
merge_evidence_refs existing [] = existing
merge_evidence_refs existing (r ∷ rs) =
    merge_evidence_refs (if has_ref r.ref_id existing then existing else existing ++ r ∷ []) rs

abbrev pub is_not_submitted : DeliveryState → Bool
is_not_submitted DeliveryState.not_submitted = true
is_not_submitted _ = false

-- The `nextState` of updateAttempt.
unfoldable pub next_attempt_state : InvocationStatus → AttemptState → AttemptState
next_attempt_state InvocationStatus.failed s = AttemptState.failed
next_attempt_state InvocationStatus.completed s = AttemptState.acknowledged
next_attempt_state InvocationStatus.cancelled s = AttemptState.acknowledged
next_attempt_state InvocationStatus.blocked s = AttemptState.uncertain
next_attempt_state InvocationStatus.running AttemptState.submitted = AttemptState.acknowledged
next_attempt_state _ s = s

abbrev pub attempt_is_failed : AttemptState → Bool
attempt_is_failed AttemptState.failed = true
attempt_is_failed _ = false

abbrev same_attempt_state : AttemptState → AttemptState → Bool
same_attempt_state AttemptState.prepared AttemptState.prepared = true
same_attempt_state AttemptState.submitted AttemptState.submitted = true
same_attempt_state AttemptState.acknowledged AttemptState.acknowledged = true
same_attempt_state AttemptState.failed AttemptState.failed = true
same_attempt_state AttemptState.uncertain AttemptState.uncertain = true
same_attempt_state _ _ = false

-- What updateAttempt makes of the last attempt: the same attempt on its two early returns. A
-- status that fails the attempt changes the state, so the second return asks for the state alone.
unfoldable pub updated_attempt :
    InvocationStatus → Option ℕ → Text → CapabilityInvocationAttempt → CapabilityInvocationAttempt
unfolding next_attempt_state
updated_attempt status finished_at error current =
    let next = next_attempt_state status current.state in
    if same_attempt_state next current.state then current else record current {
      state = next;
      finished_at = option_or finished_at current.finished_at;
      error = if attempt_is_failed next then some error else current.error;
    }

unfoldable pub update_attempt :
    CapabilityInvocation → InvocationStatus → Option ℕ → Text → List CapabilityInvocationAttempt
update_attempt invocation status finished_at error =
    map_last (updated_attempt status finished_at error) invocation.attempts

unfoldable pub next_delivery_state : InvocationStatus → DeliveryState → DeliveryState
next_delivery_state InvocationStatus.completed s = DeliveryState.acknowledged
next_delivery_state InvocationStatus.running s = DeliveryState.running
next_delivery_state InvocationStatus.failed s = DeliveryState.failed
next_delivery_state InvocationStatus.blocked s = DeliveryState.uncertain
next_delivery_state InvocationStatus.cancelled DeliveryState.not_submitted =
    DeliveryState.not_submitted
next_delivery_state InvocationStatus.cancelled s = DeliveryState.acknowledged
next_delivery_state _ s = s

abbrev pub is_acknowledged : DeliveryState → Bool
is_acknowledged DeliveryState.acknowledged = true
is_acknowledged _ = false

unfoldable pub update_delivery :
    CapabilityInvocation → InvocationStatus → Option ℕ → CapabilityInvocationDelivery
unfolding next_delivery_state
update_delivery invocation status acknowledged_at =
    let d = invocation.delivery in
    let state = next_delivery_state status d.state in
    record d {
      state = state;
      acknowledged_at =
          if is_acknowledged state
          then option_or d.acknowledged_at acknowledged_at
          else d.acknowledged_at;
    }

-- reconciliationDelivery
unfoldable pub reconciliation_delivery :
    Option ReconciliationOutcome → DeliveryState → DeliveryState
reconciliation_delivery (some ReconciliationOutcome.performed) s = DeliveryState.acknowledged
reconciliation_delivery (some ReconciliationOutcome.not_performed) s = DeliveryState.failed
reconciliation_delivery (some ReconciliationOutcome.unknown) s = DeliveryState.uncertain
reconciliation_delivery none s = s

-- isHandoffDeliveryUpdateAllowed, by the state that is and the one that comes
unfoldable pub is_handoff_delivery_update_allowed : DeliveryState → DeliveryState → Bool
is_handoff_delivery_update_allowed DeliveryState.not_submitted _ = true
is_handoff_delivery_update_allowed DeliveryState.failed DeliveryState.failed = true
is_handoff_delivery_update_allowed DeliveryState.failed _ = false
is_handoff_delivery_update_allowed _ DeliveryState.uncertain = true
is_handoff_delivery_update_allowed DeliveryState.submitted DeliveryState.submitted = true
is_handoff_delivery_update_allowed DeliveryState.submitted DeliveryState.acknowledged = true
is_handoff_delivery_update_allowed DeliveryState.submitted DeliveryState.running = true
is_handoff_delivery_update_allowed DeliveryState.acknowledged DeliveryState.acknowledged = true
is_handoff_delivery_update_allowed DeliveryState.running DeliveryState.running = true
is_handoff_delivery_update_allowed _ _ = false

-- isCancellationStateUpdateAllowed
unfoldable pub is_cancellation_state_update_allowed : CancellationState → CancellationState → Bool
is_cancellation_state_update_allowed CancellationState.requested CancellationState.not_requested =
    false
is_cancellation_state_update_allowed CancellationState.requested _ = true
is_cancellation_state_update_allowed CancellationState.not_requested
      CancellationState.not_requested =
    true
is_cancellation_state_update_allowed CancellationState.acknowledged CancellationState.acknowledged =
    true
is_cancellation_state_update_allowed CancellationState.unsupported CancellationState.unsupported =
    true
is_cancellation_state_update_allowed _ _ = false

module _ (env : Services) where
  -- sanitizeOwnerVerification
  unfoldable pub sanitize_owner_verification :
      OwnerVerification → CapabilityInvocation → Result EngineError OwnerVerification
  sanitize_owner_verification v invocation = do
    check_opaque env v.invocation_id
    reject_if (not (v.invocation_id == invocation.invocation_id))
        EngineError.wrong_attested_invocation
    check_opaque env v.owner
    reject_if (not (v.owner == invocation.module_owner)) EngineError.wrong_attested_owner
    ok (record v { reason = env.sanitize_text v.reason })

  -- The attestation of a claim, as both result paths make it.
  unfoldable pub attest :
      OwnerVerification → CapabilityInvocation → Result EngineError OwnerVerification
  attest claim invocation = elim (env.resolve invocation.capability_id) [
    | none ↦ err EngineError.unknown_capability
    | some contract ↦ elim (env.attest_owner claim invocation contract) [
      | none ↦ err EngineError.attestation_refused
      | some v ↦ sanitize_owner_verification v invocation
    ]
  ]
