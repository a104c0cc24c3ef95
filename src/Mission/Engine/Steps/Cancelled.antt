-- ===== src/Mission/Engine/Steps/Cancelled.antt =====
-- What the rows that cli/src/mission/mission-engine.ts writes for a cancellation keep of the row that
-- was read.
use ouroboros_runtime.Base.{
  true, false, ◌||◌, ◌≡◌, refl, sym, subst, Option, length, length-map, arith, if◌then◌else◌,
  Bool-cases, ok, inl, inr,
}
use ouroboros_runtime.Base.Text.{Text}
use ouroboros_runtime.Mission.Contracts.{
  CapabilityInvocation, InvocationStatus, DeliveryState, status_is, is_invocation_terminal,
  is_status_terminal,
}
use ouroboros_runtime.Mission.Engine.Services.{Services}
use ouroboros_runtime.Mission.Engine.Attempts.{is_not_submitted}
use ouroboros_runtime.Mission.Engine.Results.{Outcome}
use ouroboros_runtime.Mission.Engine.Retry.{no_delivery}
use ouroboros_runtime.Mission.Engine.Delivery.{or_else}
use ouroboros_runtime.Mission.Engine.Cancel.{
  CancellationOutcomeUpdate, cancelled_row, cancellation_requested_row, cancel_with_mission,
  cancel_unsubmitted, cancellation_outcome_row, cancelled_attempt,
}
use ouroboros_runtime.Mission.Engine.Steps.{IsSound}
use ouroboros_runtime.Mission.Engine.Steps.Writes.{CancellationWrite}
use ouroboros_runtime.Mission.Engine.Steps.Numbers.{map-IsNumbered, cancelled_attempt-attempt}
use ouroboros_runtime.Mission.Engine.Steps.Kept.{
  update_attempt-IsNumbered, length-update_attempt, two_statuses, observed-delivered,
}

cancelled_row-IsSound :
    (env : Services) (inv : CapabilityInvocation) (reason : Text) (by : Option Text)
    → IsSound inv
    → IsSound (cancelled_row env inv reason by)
unfolding cancelled_row
cancelled_row-IsSound env inv reason by s =
    let count = length-map (cancelled_attempt env.now (env.sanitize_text reason)) inv.attempts in
    let some = s.some_attempt in
    let least = s.at_least_last in
    let most = s.at_most_next in
    let budget = s.within_budget in
    record {
      failed_delivered = λ f. absurd (cc f);
      completed_not_rejected = λ c. absurd (cc c);
      numbered = map-IsNumbered _ (cancelled_attempt-attempt _ _) 0 inv.attempts s.numbered;
      some_attempt = omega arith;
      at_least_last = omega arith;
      at_most_next = omega arith;
      within_budget = omega arith;
    }

-- Soundness does not read the cancellation, the reconciliation or the clock.
cancellation_requested_row-IsSound :
    (env : Services) (inv : CapabilityInvocation) (reason : Text) (by : Option Text)
    → IsSound inv
    → IsSound (cancellation_requested_row env inv reason by)
unfolding cancellation_requested_row
cancellation_requested_row-IsSound env inv reason by s = record {
  failed_delivered = s.failed_delivered;
  completed_not_rejected = s.completed_not_rejected;
  numbered = s.numbered;
  some_attempt = s.some_attempt;
  at_least_last = s.at_least_last;
  at_most_next = s.at_most_next;
  within_budget = s.within_budget;
}

undelivered-IsSound :
    (row : CapabilityInvocation)
    → status_is row.status InvocationStatus.cancelled ≡ true
    → IsSound row
    → IsSound (record row { delivery = no_delivery })
undelivered-IsSound row cancelled s = record {
  failed_delivered = λ f. absurd (two_statuses row.status cancelled (inl f));
  completed_not_rejected = s.completed_not_rejected;
  numbered = s.numbered;
  some_attempt = s.some_attempt;
  at_least_last = s.at_least_last;
  at_most_next = s.at_most_next;
  within_budget = s.within_budget;
}

pub cancel_with_mission-IsSound :
    (env : Services) (inv : CapabilityInvocation) (reason : Text) (by : Option Text)
    {row : CapabilityInvocation}
    → cancel_with_mission env inv reason by ≡ Outcome.updated row
    → IsSound inv
    → IsSound row
unfolding cancel_with_mission cancelled_row
cancel_with_mission-IsSound env inv reason by h s = elim (Bool-cases (is_invocation_terminal inv)) [
  | inl t ↦ absurd (cc (simp t at h))
  | inr live ↦ elim (Bool-cases (is_not_submitted inv.delivery.state)) [
    | inl kept ↦ subst IsSound (cc (simp (live, kept) at h)) (
        undelivered-IsSound (cancelled_row env inv reason by) refl
          (cancelled_row-IsSound env inv reason by s))
    | inr sent ↦
        subst IsSound (cc (simp (live, sent) at h))
          (cancellation_requested_row-IsSound env inv reason by s)
  ]
]

pub cancel_unsubmitted-IsSound :
    (env : Services) (inv : CapabilityInvocation) (reason : Text) (by : Option Text)
    {row : CapabilityInvocation}
    → cancel_unsubmitted env inv reason by ≡ ok (Outcome.updated row)
    → IsSound inv
    → IsSound row
unfolding cancel_unsubmitted
cancel_unsubmitted-IsSound env inv reason by h s = elim (Bool-cases (is_invocation_terminal inv)) [
  | inl t ↦ absurd (cc (simp t at h))
  | inr live ↦ elim (Bool-cases (is_not_submitted inv.delivery.state)) [
    | inr sent ↦ absurd (cc (simp (live, sent) at h))
    | inl kept ↦
        subst IsSound (cc (simp (live, kept) at h)) (cancelled_row-IsSound env inv reason by s)
  ]
]

same-failed :
    (new old : InvocationStatus)
    → (status_is new old || status_is new InvocationStatus.cancelled) ≡ true
    → status_is new InvocationStatus.failed ≡ true
    → status_is old InvocationStatus.failed ≡ true
same-failed new old h f = ground arith

same-completed :
    (new old : InvocationStatus)
    → (status_is new old || status_is new InvocationStatus.cancelled) ≡ true
    → is_status_terminal old ≡ false
    → status_is new InvocationStatus.completed ≡ true
    → ⊥
unfolding is_status_terminal
same-completed new old h live c = ground arith

kept-delivered :
    (status : InvocationStatus) (d : DeliveryState)
    → status_is status InvocationStatus.failed ≡ true
    → is_not_submitted d ≡ false
    → is_not_submitted
        (if status_is status InvocationStatus.cancelled then DeliveryState.failed else d)
      ≡ false
kept-delivered status d f h = ground arith

pub cancellation_outcome_row-IsSound :
    (env : Services) (inv row : CapabilityInvocation) (update : CancellationOutcomeUpdate)
    → CancellationWrite env inv row update
    → IsSound inv
    → IsSound row
unfolding cancellation_outcome_row
cancellation_outcome_row-IsSound env inv row update w s =
    let status = or_else update.status inv.status in
    let new = cancellation_outcome_row env inv update in
    let count : length new.attempts ≡ length inv.attempts = length-update_attempt inv _ _ _ in
    let some = s.some_attempt in
    let least = s.at_least_last in
    let most = s.at_most_next in
    let budget = s.within_budget in
    subst IsSound (sym w.is_row) record {
      failed_delivered = λ f. observed-delivered update.delivery_state _ w.is_observed (
          kept-delivered status inv.delivery.state f
            (s.failed_delivered (same-failed status inv.status w.is_same_or_cancelled f)));
      completed_not_rejected =
          λ c. absurd (same-completed status inv.status w.is_same_or_cancelled w.is_open c);
      numbered = update_attempt-IsNumbered inv _ _ _ s.numbered;
      some_attempt = omega arith;
      at_least_last = omega arith;
      at_most_next = omega arith;
      within_budget = omega arith;
    }
