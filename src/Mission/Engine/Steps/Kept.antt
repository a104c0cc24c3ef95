-- ===== src/Mission/Engine/Steps/Kept.antt =====
-- What the rows that cli/src/mission/mission-engine.ts writes for a result, late facts, a retry, a
-- handoff and a reconciliation keep of the row that was read.
use ouroboros_runtime.Base.{
  ℕ, suc, ◌+◌, ◌<◌, max, Bool, true, false, ◌≡◌, refl, sym, subst, Option, none, some, List, [],
  ◌∷◌, last?, Option-cases, length, length-map_last, length-append, arith, if◌then◌else◌,
  Bool-cases, inl, inr, ◌⊎◌, ◌∙◌,
}
use ouroboros_runtime.Base.Text.{Text}
use ouroboros_runtime.Mission.Contracts.{
  CapabilityInvocation, CapabilityInvocationAttempt, CapabilityInvocationRetry, InvocationResult,
  InvocationStatus, EvidenceRef, OwnerVerification, DeliveryState, ReconciliationOutcome, status_is,
  rejects, is_safe_retry_eligible,
}
use ouroboros_runtime.Mission.Engine.Services.{Services}
use ouroboros_runtime.Mission.Engine.Attempts.{
  update_attempt, updated_attempt, update_delivery, next_delivery_state, is_not_submitted,
  reconciliation_delivery,
}
use ouroboros_runtime.Mission.Engine.Results.{
  result_row, result_status, next_owner, after_last_attempt,
}
use ouroboros_runtime.Mission.Engine.Late.{late_row}
use ouroboros_runtime.Mission.Engine.Retry.{retry_row}
use ouroboros_runtime.Mission.Engine.Delivery.{
  HandoffUpdate, ReconciliationUpdate, handoff_row, reconciliation_row, handoff_status,
  is_observed_state, or_else, handed_off_attempt,
}
use ouroboros_runtime.Mission.Engine.Steps.{IsSound, IsNumbered}
use ouroboros_runtime.Mission.Engine.Steps.Writes.{
  ResultWrite, HandoffWrite, ReconciliationWrite, RetryWrite, handoff_state,
}
use ouroboros_runtime.Mission.Engine.Steps.Numbers.{
  map_last-IsNumbered, append-IsNumbered, last?-IsNumbered, updated_attempt-attempt,
  handed_off_attempt-attempt,
}

pub update_attempt-IsNumbered :
    (inv : CapabilityInvocation) (status : InvocationStatus) (at : Option ℕ) (error : Text)
    → IsNumbered 0 inv.attempts
    → IsNumbered 0 (update_attempt inv status at error)
unfolding update_attempt
update_attempt-IsNumbered inv status at error h =
    map_last-IsNumbered (updated_attempt status at error) (updated_attempt-attempt status at error)
      0 inv.attempts h

pub length-update_attempt :
    (inv : CapabilityInvocation) (status : InvocationStatus) (at : Option ℕ) (error : Text)
    → length (update_attempt inv status at error) ≡ length inv.attempts
unfolding update_attempt
length-update_attempt inv status at error =
    length-map_last (updated_attempt status at error) inv.attempts

last?-cons :
    (a : CapabilityInvocationAttempt) (rest : List CapabilityInvocationAttempt)
    → last? (a ∷ rest) ≡ none
    → ⊥
last?-cons a [] h = cc h
last?-cons a (b ∷ rest) h = last?-cons b rest h

after_last_attempt-last :
    (attempts : List CapabilityInvocationAttempt) {a : CapabilityInvocationAttempt}
    → last? attempts ≡ some a
    → after_last_attempt attempts ≡ suc (a.attempt)
after_last_attempt-last attempts h = rw (h, after_last_attempt) (omega arith)

-- The number that a failure records is the length of the list.
after_last_attempt-IsNumbered :
    (attempts : List CapabilityInvocationAttempt)
    → IsNumbered 0 attempts
    → 0 < length attempts
    → after_last_attempt attempts ≡ length attempts
after_last_attempt-IsNumbered [] h nonempty = absurd (omega arith)
after_last_attempt-IsNumbered (a ∷ rest) h nonempty = elim (Option-cases (last? (a ∷ rest))) [
  | inl empty ↦ absurd (last?-cons a rest empty)
  | inr (b, is_last) ↦
      let number = last?-IsNumbered 0 (a ∷ rest) h is_last in
      let next = after_last_attempt-last (a ∷ rest) is_last in omega arith
]

next_delivery_state-failed :
    (status : InvocationStatus) (d : DeliveryState)
    → status_is status InvocationStatus.failed ≡ true
    → is_not_submitted (next_delivery_state status d) ≡ false
unfolding next_delivery_state
next_delivery_state-failed status d h = ground arith

result_status-completed :
    (owner : Option OwnerVerification) (status : InvocationStatus)
    → status_is (result_status owner status) InvocationStatus.completed ≡ true
    → rejects owner ≡ false
result_status-completed owner status h = elim (Bool-cases (rejects owner)) [
  | inl r ↦ ground arith
  | inr r ↦ r
]

-- A failure may raise the count of attempts, and changes nothing else of the retry.
raised-cases :
    (b : Bool) (r : CapabilityInvocationRetry) (n : ℕ)
    → (((if b then record r { attempt = n } else r).attempt ≡ r.attempt)
        ⊎ ((if b then record r { attempt = n } else r).attempt ≡ n))
      × ((if b then record r { attempt = n } else r).max_attempts ≡ r.max_attempts)
raised-cases true r n = (inr refl, refl)
raised-cases false r n = (inl refl, refl)

pub result_row-IsSound :
    (env : Services) (inv row : CapabilityInvocation) (result : InvocationResult)
    (refs : List EvidenceRef)
    → ResultWrite env inv row result refs
    → IsSound inv
    → IsSound row
unfolding result_row update_delivery
result_row-IsSound env inv row result refs w s =
    let owner = next_owner inv w.attested in
    let status = result_status owner result.status in
    let new = result_row env inv result status owner refs in
    let count : length new.attempts ≡ length inv.attempts = length-update_attempt inv _ _ _ in
    let numbers : IsNumbered 0 new.attempts = update_attempt-IsNumbered inv _ _ _ s.numbered in
    let next : after_last_attempt new.attempts ≡ length inv.attempts =
      after_last_attempt-IsNumbered new.attempts numbers (rw count s.some_attempt) ∙ count in
    let (raised, limit) =
      raised-cases (status_is status InvocationStatus.failed) inv.retry
        (max inv.retry.attempt (after_last_attempt new.attempts)) in
    let least = s.at_least_last in
    let most = s.at_most_next in
    let budget = s.within_budget in
    subst IsSound (sym w.is_row) record {
      failed_delivered = next_delivery_state-failed status inv.delivery.state;
      completed_not_rejected = result_status-completed owner result.status;
      numbered = numbers;
      some_attempt = rw count s.some_attempt;
      at_least_last = ground arith;
      at_most_next = ground arith;
      within_budget = ground arith;
    }

-- A cancelled invocation has neither failed nor completed.
pub two_statuses :
    (status : InvocationStatus)
    → status_is status InvocationStatus.cancelled ≡ true
    → (status_is status InvocationStatus.failed ≡ true)
      ⊎ (status_is status InvocationStatus.completed ≡ true)
    → ⊥
two_statuses status c h = ground arith

eligible-below_limit :
    (inv : CapabilityInvocation) (now : ℕ)
    → is_safe_retry_eligible inv now ≡ true
    → inv.retry.attempt < inv.retry.max_attempts
unfolding is_safe_retry_eligible
eligible-below_limit inv now h = ground arith

handoff_status-active :
    (old : InvocationStatus) (d : DeliveryState)
    → (status_is
            (if status_is old InvocationStatus.running
              then InvocationStatus.running
              else handoff_status d)
            InvocationStatus.failed
          ≡ true
        → ⊥)
      × (status_is
              (if status_is old InvocationStatus.running
                then InvocationStatus.running
                else handoff_status d)
              InvocationStatus.completed
            ≡ true
          → ⊥)
handoff_status-active old d = ground arith

pub observed-delivered :
    (o : Option DeliveryState) (d : DeliveryState)
    → is_observed_state o ≡ true
    → is_not_submitted d ≡ false
    → is_not_submitted (or_else o d) ≡ false
observed-delivered o d h k = ground arith

reconciliation_delivery-delivered :
    (o : Option ReconciliationOutcome) (d : DeliveryState)
    → is_not_submitted d ≡ false
    → is_not_submitted (reconciliation_delivery o d) ≡ false
unfolding reconciliation_delivery
reconciliation_delivery-delivered o d h = ground arith

pub late_row-IsSound :
    (env : Services) (inv : CapabilityInvocation) (status : InvocationStatus)
    (attested : OwnerVerification) (refs : List EvidenceRef)
    → status_is inv.status InvocationStatus.cancelled ≡ true
    → IsSound inv
    → IsSound (late_row env inv status attested refs)
unfolding late_row
late_row-IsSound env inv status attested refs cancelled s = record {
  failed_delivered = λ f. absurd (two_statuses inv.status cancelled (inl f));
  completed_not_rejected = λ c. absurd (two_statuses inv.status cancelled (inr c));
  numbered = s.numbered;
  some_attempt = s.some_attempt;
  at_least_last = s.at_least_last;
  at_most_next = s.at_most_next;
  within_budget = s.within_budget;
}

pub retry_row-IsSound :
    (env : Services) (inv row : CapabilityInvocation) (correlation_id : Text)
    → RetryWrite env inv row correlation_id
    → IsSound inv
    → IsSound row
unfolding retry_row
retry_row-IsSound env inv row correlation_id w s =
    let number = last?-IsNumbered 0 inv.attempts s.numbered w.is_last in
    let least = s.at_least_last in
    let most = s.at_most_next in
    let next : max inv.retry.attempt (w.last.attempt + 1) ≡ length inv.attempts = ground arith in
    let left = eligible-below_limit inv env.now w.is_eligible in
    let new =
      retry_row env inv (max inv.retry.attempt (w.last.attempt + 1)) w.backoff_ms correlation_id in
    let count : length new.attempts ≡ length inv.attempts + 1 = length-append inv.attempts _ in
    subst IsSound (sym w.is_row) record {
      failed_delivered = λ f. absurd (cc f);
      completed_not_rejected = λ c. absurd (cc c);
      numbered = append-IsNumbered 0 inv.attempts _ s.numbered (next ∙ omega arith);
      some_attempt = omega arith;
      at_least_last = omega arith;
      at_most_next = omega arith;
      within_budget = omega arith;
    }

pub handoff_row-IsSound :
    (env : Services) (inv row : CapabilityInvocation) (update : HandoffUpdate)
    → HandoffWrite env inv row update
    → IsSound inv
    → IsSound row
unfolding handoff_row
handoff_row-IsSound env inv row update w s =
    let count =
      length-map_last (handed_off_attempt (handoff_state update) update.correlation_id)
        inv.attempts in
    let some = s.some_attempt in
    let least = s.at_least_last in
    let most = s.at_most_next in
    let budget = s.within_budget in
    let active = handoff_status-active inv.status (handoff_state update) in
    subst IsSound (sym w.is_row) record {
      failed_delivered = λ f. absurd (active.0 f);
      completed_not_rejected = λ c. absurd (active.1 c);
      numbered = map_last-IsNumbered _ (handed_off_attempt-attempt _ _) 0 inv.attempts s.numbered;
      some_attempt = omega arith;
      at_least_last = omega arith;
      at_most_next = omega arith;
      within_budget = omega arith;
    }

pub reconciliation_row-IsSound :
    (env : Services) (inv row : CapabilityInvocation) (update : ReconciliationUpdate)
    → ReconciliationWrite env inv row update
    → IsSound inv
    → IsSound row
unfolding reconciliation_row
reconciliation_row-IsSound env inv row update w s =
    let new = reconciliation_row env inv update in
    let count : length new.attempts ≡ length inv.attempts = length-update_attempt inv _ _ _ in
    let some = s.some_attempt in
    let least = s.at_least_last in
    let most = s.at_most_next in
    let budget = s.within_budget in
    subst IsSound (sym w.is_row) record {
      failed_delivered = λ f.
          observed-delivered update.delivery_state _ w.is_observed
            (reconciliation_delivery-delivered update.outcome inv.delivery.state w.is_submitted);
      completed_not_rejected = λ c. absurd (cc (w.not_completed, c));
      numbered = update_attempt-IsNumbered inv _ _ _ s.numbered;
      some_attempt = omega arith;
      at_least_last = omega arith;
      at_most_next = omega arith;
      within_budget = omega arith;
    }
