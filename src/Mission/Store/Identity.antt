-- ===== src/Mission/Store/Identity.antt =====
-- The operations of cli/src/mission/mission-engine.ts leave the fields alone that
-- assertImmutableInvocationIdentity of cli/src/mission/sqlite-mission-store.ts protects.
use ouroboros_runtime.Base.{ℕ, arith, true, ◌≡◌, sym, subst, Option, List, ok, Bool-cases, inl, inr}
use ouroboros_runtime.Base.Text.{Text}
use ouroboros_runtime.Mission.Contracts.{
  CapabilityInvocation, CapabilityInvocationReconciliation, InvocationResult, InvocationStatus,
  EvidenceRef, OwnerVerification, DeliveryState, status_is, is_invocation_terminal,
}
use ouroboros_runtime.Mission.Engine.Services.{Services}
use ouroboros_runtime.Mission.Engine.Attempts.{is_not_submitted}
use ouroboros_runtime.Mission.Engine.Results.{Outcome, result_row, next_reconciliation, is_resolved}
use ouroboros_runtime.Mission.Engine.Late.{late_row, observed_reconciliation}
use ouroboros_runtime.Mission.Engine.Retry.{retry_row, no_delivery}
use ouroboros_runtime.Mission.Engine.Delivery.{
  HandoffUpdate, handoff_row, reconciliation_row, is_unanswered,
}
use ouroboros_runtime.Mission.Engine.Cancel.{
  cancelled_row, cancellation_requested_row, cancel_with_mission, cancel_unsubmitted,
  cancel_request, cancellation_outcome_row,
}
use ouroboros_runtime.Mission.Engine.Steps.{Step}
use ouroboros_runtime.Mission.Engine.Steps.Writes.{
  apply_result-eq-updated, apply_late_facts-eq-updated, prepare_retry-eq-ok,
  mark_handoff-eq-updated, mark_reconciliation-eq-updated, record_cancellation_outcome-eq-updated,
  handoff_state,
}
use ouroboros_runtime.Mission.Store.{same_identity, same_semantics}
use ouroboros_runtime.Mission.Store.Writes.{same_identity_refl, same_semantics_refl}

abbrev pub IsKept : CapabilityInvocation → CapabilityInvocation → Type 0
IsKept inv row = (same_identity inv row ≡ true) × (same_semantics inv row ≡ true)

next_reconciliation-support :
    (r : CapabilityInvocationReconciliation) (status : InvocationStatus) (now : ℕ)
    → (next_reconciliation r status now).support ≡ r.support
unfolding next_reconciliation
next_reconciliation-support r status now = ground arith

result_row-IsKept :
    (env : Services) (inv : CapabilityInvocation) (result : InvocationResult)
    (status : InvocationStatus) (owner : Option OwnerVerification) (refs : List EvidenceRef)
    → IsKept inv (result_row env inv result status owner refs)
unfolding result_row same_identity same_semantics
result_row-IsKept env inv result status owner refs =
    let support = next_reconciliation-support inv.reconciliation status env.now in
    elim (Bool-cases (status_is status InvocationStatus.failed)) [
      | inl f ↦ (same_identity_refl inv, simp (f, support) (same_semantics_refl inv))
      | inr f ↦ (same_identity_refl inv, simp (f, support) (same_semantics_refl inv))
    ]

observed_reconciliation-support :
    (r : CapabilityInvocationReconciliation) (status : InvocationStatus) (now : ℕ)
    → (observed_reconciliation r status now).support ≡ r.support
unfolding observed_reconciliation
observed_reconciliation-support r status now = ground arith

late_row-IsKept :
    (env : Services) (inv : CapabilityInvocation) (status : InvocationStatus)
    (attested : OwnerVerification) (refs : List EvidenceRef)
    → IsKept inv (late_row env inv status attested refs)
unfolding late_row same_identity same_semantics
late_row-IsKept env inv status attested refs =
    let support = observed_reconciliation-support inv.reconciliation status env.now in
    elim (Bool-cases (is_resolved inv.reconciliation.state)) [
      | inl settled ↦ (same_identity_refl inv, simp settled (same_semantics_refl inv))
      | inr unsettled ↦
          (same_identity_refl inv, simp (unsettled, support) (same_semantics_refl inv))
    ]

handoff_row-IsKept :
    (env : Services) (inv : CapabilityInvocation) (d : DeliveryState) (update : HandoffUpdate)
    → IsKept inv (handoff_row env inv d update)
unfolding handoff_row same_identity same_semantics
handoff_row-IsKept env inv d update = (
  same_identity_refl inv,
  elim (Bool-cases (is_unanswered d)) [
    | inl u ↦ simp u (same_semantics_refl inv)
    | inr u ↦ simp u (same_semantics_refl inv)
  ],
)

cancelled_row-IsKept :
    (env : Services) (inv : CapabilityInvocation) (reason : Text) (by : Option Text)
    → IsKept inv (cancelled_row env inv reason by)
unfolding cancelled_row cancel_request same_identity same_semantics
cancelled_row-IsKept env inv reason by = (same_identity_refl inv, same_semantics_refl inv)

cancel_with_mission-IsKept :
    (env : Services) (inv : CapabilityInvocation) (reason : Text) (by : Option Text)
    {row : CapabilityInvocation}
    → cancel_with_mission env inv reason by ≡ Outcome.updated row
    → IsKept inv row
unfolding cancel_with_mission cancelled_row cancellation_requested_row cancel_request same_identity
    same_semantics
cancel_with_mission-IsKept env inv reason by {row} h =
    elim (Bool-cases (is_invocation_terminal inv)) [
      | inl t ↦ absurd (cc (simp t at h))
      | inr live ↦ elim (Bool-cases (is_not_submitted inv.delivery.state)) [
        | inl kept ↦
            subst (IsKept inv)
              {x = record (cancelled_row env inv reason by) { delivery = no_delivery }} {y = row}
              (cc (simp (live, kept) at h)) (same_identity_refl inv, same_semantics_refl inv)
        | inr sent ↦
            subst (IsKept inv) {x = cancellation_requested_row env inv reason by} {y = row}
              (cc (simp (live, sent) at h)) (same_identity_refl inv, same_semantics_refl inv)
      ]
    ]

cancel_unsubmitted-IsKept :
    (env : Services) (inv : CapabilityInvocation) (reason : Text) (by : Option Text)
    {row : CapabilityInvocation}
    → cancel_unsubmitted env inv reason by ≡ ok (Outcome.updated row)
    → IsKept inv row
unfolding cancel_unsubmitted
cancel_unsubmitted-IsKept env inv reason by {row} h =
    elim (Bool-cases (is_invocation_terminal inv)) [
      | inl t ↦ absurd (cc (simp t at h))
      | inr live ↦ elim (Bool-cases (is_not_submitted inv.delivery.state)) [
        | inr sent ↦ absurd (cc (simp (live, sent) at h))
        | inl kept ↦
            subst (IsKept inv) {x = cancelled_row env inv reason by} {y = row}
              (cc (simp (live, kept) at h)) (cancelled_row-IsKept env inv reason by)
      ]
    ]

-- No operation changes the identity of an invocation or its execution semantics.
pub Step-same_identity :
    {inv row : CapabilityInvocation}
    → Step inv row
    → (same_identity inv row ≡ true) × (same_semantics inv row ≡ true)
unfolding retry_row reconciliation_row cancellation_outcome_row same_identity same_semantics
Step-same_identity {inv} {row} (Step.by_result env b result refs claim h) =
    let w = apply_result-eq-updated env b inv result refs claim h in
    subst (IsKept inv) (sym w.is_row) (result_row-IsKept env inv result _ _ refs)
Step-same_identity {inv} (Step.by_late_facts env evidence status refs claim c h) =
    let (attested, is_row, _) = apply_late_facts-eq-updated env inv evidence status refs claim h in
    subst (IsKept inv) (sym is_row) (late_row-IsKept env inv status attested refs)
Step-same_identity {inv} (Step.by_retry env backoff_ms id h) =
    let w = prepare_retry-eq-ok env inv backoff_ms id h in
    subst (IsKept inv) (sym w.is_row) (same_identity_refl inv, same_semantics_refl inv)
Step-same_identity {inv} (Step.by_handoff env update h) =
    let w = mark_handoff-eq-updated env inv update h in
    subst (IsKept inv) (sym w.is_row) (handoff_row-IsKept env inv (handoff_state update) update)
Step-same_identity {inv} (Step.by_reconciliation env update h) =
    let w = mark_reconciliation-eq-updated env inv update h in
    subst (IsKept inv) (sym w.is_row) (same_identity_refl inv, same_semantics_refl inv)
Step-same_identity {inv} (Step.by_mission_cancelled env reason by h) =
    cancel_with_mission-IsKept env inv reason by h
Step-same_identity {inv} (Step.by_cancel env reason by h) =
    cancel_unsubmitted-IsKept env inv reason by h
Step-same_identity {inv} (Step.by_cancellation_outcome env update h) =
    let w = record_cancellation_outcome-eq-updated env inv update h in
    subst (IsKept inv) (sym w.is_row) (same_identity_refl inv, same_semantics_refl inv)
