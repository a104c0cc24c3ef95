-- ===== src/Mission/Engine/Steps/Laws.antt =====
-- How the operations of cli/src/mission/mission-engine.ts move the status of an invocation.
use ouroboros_runtime.Base.{
  true, false, ◌≡◌, sym, subst, Option, ok, Bool-cases, inl, inr, if◌then◌else◌, arith,
}
use ouroboros_runtime.Base.Text.{Text}
use ouroboros_runtime.Mission.Contracts.{
  CapabilityInvocation, InvocationStatus, DeliveryState, status_is, is_status_terminal,
  is_invocation_terminal, is_invocation_update_allowed, is_safe_retry_eligible,
}
use ouroboros_runtime.Mission.Engine.Services.{Services}
use ouroboros_runtime.Mission.Engine.Attempts.{is_not_submitted}
use ouroboros_runtime.Mission.Engine.Results.{Outcome, result_row}
use ouroboros_runtime.Mission.Engine.Late.{late_row}
use ouroboros_runtime.Mission.Engine.Retry.{retry_row, no_delivery}
use ouroboros_runtime.Mission.Engine.Delivery.{handoff_row, reconciliation_row, handoff_status}
use ouroboros_runtime.Mission.Engine.Cancel.{
  cancelled_row, cancellation_requested_row, cancel_with_mission, cancel_unsubmitted,
  cancellation_outcome_row,
}
use ouroboros_runtime.Mission.Engine.Steps.{Step, IsSound}
use ouroboros_runtime.Mission.Engine.Steps.Writes.{
  apply_result-eq-updated, apply_late_facts-eq-updated, prepare_retry-eq-ok,
  mark_handoff-eq-updated, mark_reconciliation-eq-updated, record_cancellation_outcome-eq-updated,
  handoff_state,
}

stays-allowed : (status : InvocationStatus) → is_invocation_update_allowed status status ≡ true
unfolding is_invocation_update_allowed
stays-allowed status = ground arith

retry-allowed :
    (inv : CapabilityInvocation) (now : _)
    → is_safe_retry_eligible inv now ≡ true
    → is_invocation_update_allowed inv.status InvocationStatus.pending ≡ true
unfolding is_safe_retry_eligible is_invocation_update_allowed
retry-allowed inv now h = ground arith

handoff-allowed :
    (old : InvocationStatus) (d : DeliveryState)
    → is_invocation_update_allowed old (handoff_status d) ≡ true
    → is_invocation_update_allowed old (
        if status_is old InvocationStatus.running
        then InvocationStatus.running
        else handoff_status d)
      ≡ true
unfolding is_invocation_update_allowed
handoff-allowed old d h = ground arith

-- Only a failed invocation may not be cancelled; one that is not delivered has not failed.
cancel-allowed :
    (status : InvocationStatus) (d : DeliveryState)
    → is_status_terminal status ≡ false
    → is_not_submitted d ≡ true
    → (status_is status InvocationStatus.failed ≡ true → is_not_submitted d ≡ false)
    → is_invocation_update_allowed status InvocationStatus.cancelled ≡ true
unfolding is_status_terminal is_invocation_update_allowed
cancel-allowed status d live kept delivered = ground arith

abbrev IsAllowed : CapabilityInvocation → CapabilityInvocation → Type 0
IsAllowed inv row = is_invocation_update_allowed inv.status row.status ≡ true

cancel_with_mission-IsAllowed :
    (env : Services) (inv : CapabilityInvocation) (reason : Text) (by : Option Text)
    {row : CapabilityInvocation}
    → cancel_with_mission env inv reason by ≡ Outcome.updated row
    → IsSound inv
    → IsAllowed inv row
unfolding cancel_with_mission cancelled_row cancellation_requested_row
cancel_with_mission-IsAllowed env inv reason by {row} h s =
    elim (Bool-cases (is_invocation_terminal inv)) [
      | inl t ↦ absurd (cc (simp t at h))
      | inr live ↦ elim (Bool-cases (is_not_submitted inv.delivery.state)) [
        | inl kept ↦
            subst (IsAllowed inv)
              {x = record (cancelled_row env inv reason by) { delivery = no_delivery }} {y = row}
              (cc (simp (live, kept) at h))
              (cancel-allowed inv.status inv.delivery.state live kept s.failed_delivered)
        | inr sent ↦
            subst (IsAllowed inv) {x = cancellation_requested_row env inv reason by} {y = row}
              (cc (simp (live, sent) at h)) (stays-allowed inv.status)
      ]
    ]

cancel_unsubmitted-IsAllowed :
    (env : Services) (inv : CapabilityInvocation) (reason : Text) (by : Option Text)
    {row : CapabilityInvocation}
    → cancel_unsubmitted env inv reason by ≡ ok (Outcome.updated row)
    → IsSound inv
    → IsAllowed inv row
unfolding cancel_unsubmitted cancelled_row
cancel_unsubmitted-IsAllowed env inv reason by {row} h s =
    elim (Bool-cases (is_invocation_terminal inv)) [
      | inl t ↦ absurd (cc (simp t at h))
      | inr live ↦ elim (Bool-cases (is_not_submitted inv.delivery.state)) [
        | inr sent ↦ absurd (cc (simp (live, sent) at h))
        | inl kept ↦
            subst (IsAllowed inv) {x = cancelled_row env inv reason by} {y = row}
              (cc (simp (live, kept) at h))
              (cancel-allowed inv.status inv.delivery.state live kept s.failed_delivered)
      ]
    ]

-- Every operation that reads a sound row changes the status along the table of
-- isInvocationUpdateAllowed, cancellation included, though it does not ask the table.
pub Step-is_invocation_update_allowed :
    {inv row : CapabilityInvocation}
    → Step inv row
    → IsSound inv
    → is_invocation_update_allowed inv.status row.status ≡ true
unfolding result_row late_row retry_row handoff_row reconciliation_row cancellation_outcome_row
Step-is_invocation_update_allowed {inv} {row} (Step.by_result env b result refs claim h) s =
    let w = apply_result-eq-updated env b inv result refs claim h in
    subst (IsAllowed inv) (sym w.is_row) w.is_allowed
Step-is_invocation_update_allowed {inv} (Step.by_late_facts env evidence status refs claim c h) s =
    let (attested, is_row, _) = apply_late_facts-eq-updated env inv evidence status refs claim h in
    subst (IsAllowed inv) (sym is_row) (stays-allowed inv.status)
Step-is_invocation_update_allowed {inv} (Step.by_retry env backoff_ms id h) s =
    let w = prepare_retry-eq-ok env inv backoff_ms id h in
    subst (IsAllowed inv) (sym w.is_row) (retry-allowed inv env.now w.is_eligible)
Step-is_invocation_update_allowed {inv} (Step.by_handoff env update h) s =
    let w = mark_handoff-eq-updated env inv update h in
    subst (IsAllowed inv) (sym w.is_row)
      (handoff-allowed inv.status (handoff_state update) w.is_allowed)
Step-is_invocation_update_allowed {inv} (Step.by_reconciliation env update h) s =
    let w = mark_reconciliation-eq-updated env inv update h in
    subst (IsAllowed inv) (sym w.is_row) w.is_allowed
Step-is_invocation_update_allowed {inv} (Step.by_mission_cancelled env reason by h) s =
    cancel_with_mission-IsAllowed env inv reason by h s
Step-is_invocation_update_allowed {inv} (Step.by_cancel env reason by h) s =
    cancel_unsubmitted-IsAllowed env inv reason by h s
Step-is_invocation_update_allowed {inv} (Step.by_cancellation_outcome env update h) s =
    let w = record_cancellation_outcome-eq-updated env inv update h in
    subst (IsAllowed inv) (sym w.is_row) w.is_allowed

terminal-stays :
    (old new : InvocationStatus)
    → is_status_terminal old ≡ true
    → is_invocation_update_allowed old new ≡ true
    → new ≡ old
unfolding is_status_terminal is_invocation_update_allowed
terminal-stays old new t h = ground arith
