-- ===== src/Mission/Tests/Rows.antt =====
-- The theorems on the rows of an invocation at a small Mission.
use ouroboros_runtime.Base.{suc, ◌≤◌, true, false, ◌≡◌, refl, some, [], ◌∷◌, last?, length, ok}
use ouroboros_runtime.Base.Text.{text_beq, text_eq, is_white}
use ouroboros_runtime.Mission.Contracts.{
  CapabilityInvocation, CapabilityInvocationAttempt, AttemptState, InvocationStatus, DeliveryState,
  is_status_terminal, is_invocation_update_allowed, is_safe_retry_eligible, has_uncertain_delivery,
  is_invocation_due, status_is,
}
use ouroboros_runtime.Mission.Engine.Services.{check_opaque}
use ouroboros_runtime.Mission.Engine.Attempts.{
  attest, sanitize_owner_verification, merge_evidence_refs, update_attempt, updated_attempt,
  next_attempt_state, update_delivery, next_delivery_state, is_handoff_delivery_update_allowed,
}
use ouroboros_runtime.Mission.Engine.Results.{Outcome, result_row, next_reconciliation}
use ouroboros_runtime.Mission.Engine.Rows.{
  assert_row, identity_is_empty, invocation_texts, evidence_texts, attempt_texts,
}
use ouroboros_runtime.Mission.Engine.Late.{
  apply_late_facts, late_row, late_row_changed, observed_delivery, observed_reconciliation,
  same_delivery, same_reconciliation,
}
use ouroboros_runtime.Mission.Engine.Retry.{
  prepare_retry, guard_retry, retry_after, retry_row, retry_backoff_ms,
}
use ouroboros_runtime.Mission.Engine.Delivery.{mark_handoff, handoff_row, handed_off_attempt}
use ouroboros_runtime.Mission.Engine.Cancel.{cancelled_row, cancelled_attempt, cancel_request}
use ouroboros_runtime.Mission.Engine.Dispatch.{dispatched_row}
use ouroboros_runtime.Mission.Engine.Dispatch.Correct.{dispatched_row-IsSound}
use ouroboros_runtime.Mission.Policy.Validate.{step_fingerprint}
use ouroboros_runtime.Mission.Policy.Decision.{compute_effect_fingerprint}
use ouroboros_runtime.Mission.Engine.Steps.{Step, IsSound}
use ouroboros_runtime.Mission.Engine.Steps.Laws.{Step-is_invocation_update_allowed}
use ouroboros_runtime.Mission.Engine.Steps.Retries.{IsSafe, prepare_retry-IsSafe}
use ouroboros_runtime.Mission.Store.{
  save_invocation, stored_row, unique_after, same_identity, same_semantics, texts_beq, effect_beq,
  key_beq,
}
use ouroboros_runtime.Mission.Store.History.{
  History, save-Step, save-late_facts, History-IsSound, History-terminal, History-rejects,
  History-attempts,
}
use ouroboros_runtime.Mission.Samples.{
  mission, revision, step, services, first_row, descriptor, handed_row, saved_row, failed_row,
  stopped_row, rejected_row, verdict, handoff,
}

first_row-IsSound : IsSound first_row
first_row-IsSound =
    dispatched_row-IsSound services mission revision step descriptor (73 ∷ []) (88 ∷ [])

handed_over : Step first_row handed_row
unfolding mark_handoff dispatched_row check_opaque is_handoff_delivery_update_allowed
    is_status_terminal is_invocation_update_allowed
handed_over = Step.by_handoff services (handoff DeliveryState.submitted) refl

saved : save_invocation services first_row handed_row ≡ ok saved_row
unfolding save_invocation same_identity same_semantics texts_beq effect_beq key_beq text_beq
    identity_is_empty invocation_texts evidence_texts attempt_texts dispatched_row handoff_row
    handed_off_attempt is_status_terminal is_invocation_update_allowed step_fingerprint
    compute_effect_fingerprint
saved = refl

asserted : assert_row services handed_row ≡ ok tt
unfolding assert_row identity_is_empty invocation_texts evidence_texts attempt_texts dispatched_row
    handoff_row handed_off_attempt step_fingerprint compute_effect_fingerprint
asserted = refl

history : History first_row saved_row
history = History.then_saved services History.start handed_over saved

History-IsSound_example : IsSound saved_row
History-IsSound_example = History-IsSound history first_row-IsSound

History-attempts_example : length saved_row.attempts ≤ suc (first_row.retry.max_attempts)
History-attempts_example = History-attempts history first_row-IsSound

is_live : is_status_terminal first_row.status ≡ false
unfolding is_status_terminal dispatched_row
is_live = refl

save-Step_example :
    save_invocation services first_row handed_row ≡ ok (stored_row first_row handed_row)
save-Step_example = save-Step services handed_over first_row-IsSound is_live asserted

Step-is_invocation_update_allowed_example :
    is_invocation_update_allowed first_row.status handed_row.status ≡ true
Step-is_invocation_update_allowed_example =
    Step-is_invocation_update_allowed handed_over first_row-IsSound

retried :
    (row : CapabilityInvocation) × (prepare_retry services failed_row (some 500) (89 ∷ []) ≡ ok row)
unfolding prepare_retry guard_retry retry_after retry_row retry_backoff_ms assert_row
    identity_is_empty invocation_texts evidence_texts attempt_texts check_opaque is_white
    is_safe_retry_eligible has_uncertain_delivery is_invocation_due result_row update_attempt
    updated_attempt next_attempt_state update_delivery next_delivery_state next_reconciliation
    merge_evidence_refs dispatched_row handoff_row handed_off_attempt step_fingerprint
    compute_effect_fingerprint unique_after
retried = (_, refl)

prepare_retry-IsSafe_example :
    IsSafe failed_row services.now
    × (retried.0.status ≡ InvocationStatus.pending)
    × (retried.0.delivery.state ≡ DeliveryState.not_submitted)
    × ((a : CapabilityInvocationAttempt) × (last? retried.0.attempts ≡ some a)
        × (a.state ≡ AttemptState.prepared)
        × (a.correlation_id ≡ (89 ∷ [])))
prepare_retry-IsSafe_example =
    prepare_retry-IsSafe services failed_row (some 500) (89 ∷ []) (retried.1)

abbrev late_row_of_stopped : CapabilityInvocation
late_row_of_stopped = late_row services stopped_row InvocationStatus.completed (verdict true) []

late :
    apply_late_facts services stopped_row [] InvocationStatus.completed [] (some (verdict true))
    ≡ ok (Outcome.updated late_row_of_stopped)
unfolding apply_late_facts late_row late_row_changed observed_delivery observed_reconciliation
    same_delivery same_reconciliation attest sanitize_owner_verification check_opaque is_white
    merge_evidence_refs text_beq cancelled_row cancelled_attempt cancel_request dispatched_row
    assert_row identity_is_empty invocation_texts evidence_texts attempt_texts step_fingerprint
    compute_effect_fingerprint
late = refl

stopped_is_cancelled : status_is stopped_row.status InvocationStatus.cancelled ≡ true
unfolding cancelled_row dispatched_row
stopped_is_cancelled = refl

save-late_facts_example : save_invocation services stopped_row late_row_of_stopped ≡ ok stopped_row
save-late_facts_example =
    save-late_facts services stopped_row [] InvocationStatus.completed [] (some (verdict true))
      stopped_is_cancelled late

stopped_is_terminal : is_status_terminal stopped_row.status ≡ true
unfolding cancelled_row dispatched_row is_status_terminal
stopped_is_terminal = refl

dropped : save_invocation services stopped_row late_row_of_stopped ≡ ok stopped_row
unfolding save_invocation identity_is_empty invocation_texts evidence_texts attempt_texts
    cancelled_row cancelled_attempt cancel_request dispatched_row late_row merge_evidence_refs
    is_status_terminal observed_delivery observed_reconciliation step_fingerprint
    compute_effect_fingerprint
dropped = refl

stopped-History : History stopped_row stopped_row
stopped-History =
    History.then_saved services History.start
      (Step.by_late_facts services [] InvocationStatus.completed [] (some (verdict true))
        stopped_is_cancelled late)
      dropped

History-terminal_example : stopped_row ≡ stopped_row
History-terminal_example = History-terminal stopped-History stopped_is_terminal

-- The owner has rejected the invocation, and the connector acknowledges its handoff.
abbrev acknowledged_row : CapabilityInvocation
acknowledged_row =
    handoff_row services rejected_row DeliveryState.acknowledged
      (handoff DeliveryState.acknowledged)

acknowledged : Step rejected_row acknowledged_row
unfolding mark_handoff dispatched_row check_opaque is_handoff_delivery_update_allowed
    is_status_terminal is_invocation_update_allowed handoff_row unique_after
acknowledged = Step.by_handoff services (handoff DeliveryState.acknowledged) refl

acknowledged_saved :
    save_invocation services rejected_row acknowledged_row
    ≡ ok (stored_row rejected_row acknowledged_row)
unfolding save_invocation same_identity same_semantics texts_beq effect_beq key_beq text_beq
    identity_is_empty invocation_texts evidence_texts attempt_texts dispatched_row handoff_row
    handed_off_attempt is_status_terminal is_invocation_update_allowed step_fingerprint
    compute_effect_fingerprint unique_after
acknowledged_saved = refl

History-rejects_example :
    (stored_row rejected_row acknowledged_row).owner_verification ≡ some (verdict false)
History-rejects_example =
    History-rejects (History.then_saved services History.start acknowledged acknowledged_saved) refl
