-- ===== src/Mission/Engine/Steps/Owner.antt =====
-- The verdict of a module owner under the operations of cli/src/mission/mission-engine.ts.
use ouroboros_runtime.Base.{
  true, ◌≡◌, refl, sym, subst, Option, none, some, ok, Bool-cases, inl, inr,
}
use ouroboros_runtime.Base.Text.{Text}
use ouroboros_runtime.Mission.Contracts.{
  CapabilityInvocation, OwnerVerification, rejects, is_invocation_terminal,
}
use ouroboros_runtime.Mission.Engine.Services.{Services, option_or}
use ouroboros_runtime.Mission.Engine.Attempts.{is_not_submitted}
use ouroboros_runtime.Mission.Engine.Results.{Outcome, result_row, next_owner}
use ouroboros_runtime.Mission.Engine.Late.{late_row}
use ouroboros_runtime.Mission.Engine.Retry.{retry_row, no_delivery}
use ouroboros_runtime.Mission.Engine.Delivery.{handoff_row, reconciliation_row}
use ouroboros_runtime.Mission.Engine.Cancel.{
  cancelled_row, cancellation_requested_row, cancel_with_mission, cancel_unsubmitted,
  cancellation_outcome_row,
}
use ouroboros_runtime.Mission.Engine.Steps.{Step}
use ouroboros_runtime.Mission.Engine.Steps.Writes.{
  apply_result-eq-updated, apply_late_facts-eq-updated, prepare_retry-eq-ok,
  mark_handoff-eq-updated, mark_reconciliation-eq-updated, record_cancellation_outcome-eq-updated,
}

abbrev HasOwner : Option OwnerVerification → CapabilityInvocation → Type 0
HasOwner owner row = row.owner_verification ≡ owner

next_owner-rejects :
    (inv : CapabilityInvocation) (attested : Option OwnerVerification)
    → rejects inv.owner_verification ≡ true
    → next_owner inv attested ≡ inv.owner_verification
next_owner-rejects inv attested r = rw r refl

option_or-rejects :
    (owner attested : Option OwnerVerification)
    → rejects owner ≡ true
    → option_or owner attested ≡ owner
option_or-rejects none attested r = absurd (cc r)
option_or-rejects (some v) attested r = refl

cancel_with_mission-owner :
    (env : Services) (inv : CapabilityInvocation) (reason : Text) (by : Option Text)
    {row : CapabilityInvocation}
    → cancel_with_mission env inv reason by ≡ Outcome.updated row
    → HasOwner inv.owner_verification row
unfolding cancel_with_mission cancelled_row cancellation_requested_row
cancel_with_mission-owner env inv reason by {row} h =
    elim (Bool-cases (is_invocation_terminal inv)) [
      | inl t ↦ absurd (cc (simp t at h))
      | inr live ↦ elim (Bool-cases (is_not_submitted inv.delivery.state)) [
        | inl kept ↦
            subst (HasOwner inv.owner_verification)
              {x = record (cancelled_row env inv reason by) { delivery = no_delivery }} {y = row}
              (cc (simp (live, kept) at h)) refl
        | inr sent ↦
            subst (HasOwner inv.owner_verification)
              {x = cancellation_requested_row env inv reason by} {y = row}
              (cc (simp (live, sent) at h)) refl
      ]
    ]

cancel_unsubmitted-owner :
    (env : Services) (inv : CapabilityInvocation) (reason : Text) (by : Option Text)
    {row : CapabilityInvocation}
    → cancel_unsubmitted env inv reason by ≡ ok (Outcome.updated row)
    → HasOwner inv.owner_verification row
unfolding cancel_unsubmitted cancelled_row
cancel_unsubmitted-owner env inv reason by {row} h =
    elim (Bool-cases (is_invocation_terminal inv)) [
      | inl t ↦ absurd (cc (simp t at h))
      | inr live ↦ elim (Bool-cases (is_not_submitted inv.delivery.state)) [
        | inr sent ↦ absurd (cc (simp (live, sent) at h))
        | inl kept ↦
            subst (HasOwner inv.owner_verification) {x = cancelled_row env inv reason by} {y = row}
              (cc (simp (live, kept) at h)) refl
      ]
    ]

-- No operation replaces a negative verdict of the module's owner.
pub Step-rejects :
    {inv row : CapabilityInvocation}
    → Step inv row
    → rejects inv.owner_verification ≡ true
    → row.owner_verification ≡ inv.owner_verification
unfolding result_row late_row retry_row handoff_row reconciliation_row cancellation_outcome_row
Step-rejects {inv} (Step.by_result env b result refs claim h) r =
    let w = apply_result-eq-updated env b inv result refs claim h in
    subst (HasOwner inv.owner_verification) (sym w.is_row) (next_owner-rejects inv w.attested r)
Step-rejects {inv} (Step.by_late_facts env evidence status refs claim c h) r =
    let (attested, is_row, _) = apply_late_facts-eq-updated env inv evidence status refs claim h in
    subst (HasOwner inv.owner_verification) (sym is_row)
      (option_or-rejects inv.owner_verification (some attested) r)
Step-rejects {inv} (Step.by_retry env backoff_ms id h) r =
    let w = prepare_retry-eq-ok env inv backoff_ms id h in
    subst (HasOwner inv.owner_verification) (sym w.is_row) refl
Step-rejects {inv} (Step.by_handoff env update h) r =
    let w = mark_handoff-eq-updated env inv update h in
    subst (HasOwner inv.owner_verification) (sym w.is_row) refl
Step-rejects {inv} (Step.by_reconciliation env update h) r =
    let w = mark_reconciliation-eq-updated env inv update h in
    subst (HasOwner inv.owner_verification) (sym w.is_row) refl
Step-rejects {inv} (Step.by_mission_cancelled env reason by h) r =
    cancel_with_mission-owner env inv reason by h
Step-rejects {inv} (Step.by_cancel env reason by h) r = cancel_unsubmitted-owner env inv reason by h
Step-rejects {inv} (Step.by_cancellation_outcome env update h) r =
    let w = record_cancellation_outcome-eq-updated env inv update h in
    subst (HasOwner inv.owner_verification) (sym w.is_row) refl
