-- ===== src/Mission/Engine/Steps/Writes.antt =====
-- What each operation of cli/src/mission/mission-engine.ts has checked by the time it writes a row,
-- and which row that is.
use ouroboros_runtime.Base.{
  ℕ, ◌+◌, max, Bool, true, false, ◌||◌, ◌≡◌, inl, inr, Option, none, some, List, last?, ok, ◌>>◌,
  reject_if, >>=-eq-ok, Bool-cases, Option-cases, arith,
}
use ouroboros_runtime.Base.Text.{Text}
use ouroboros_runtime.Mission.Contracts.{
  CapabilityInvocation, CapabilityInvocationAttempt, InvocationResult, InvocationStatus,
  EvidenceRef, OwnerVerification, DeliveryState, status_is, is_invocation_terminal,
  is_invocation_update_allowed, is_safe_retry_eligible,
}
use ouroboros_runtime.Mission.Engine.Services.{Services, EngineError}
use ouroboros_runtime.Mission.Engine.Attempts.{is_not_submitted, attempt_is_failed, attest}
use ouroboros_runtime.Mission.Engine.Results.{
  Outcome, apply_result, guard_result, result_row, next_owner, result_status, attest_claim,
  is_repeated_failure,
}
use ouroboros_runtime.Mission.Engine.Late.{apply_late_facts, late_row, late_row_changed}
use ouroboros_runtime.Mission.Engine.Rows.{assert_row}
use ouroboros_runtime.Mission.Engine.Retry.{
  prepare_retry, guard_retry, retry_row, retry_after, retry_backoff_ms,
}
use ouroboros_runtime.Mission.Engine.Delivery.{
  HandoffUpdate, ReconciliationUpdate, mark_handoff, handoff_row, mark_reconciliation,
  reconciliation_row, or_else, handoff_status, is_observed_state,
}
use ouroboros_runtime.Mission.Engine.Cancel.{
  CancellationOutcomeUpdate, record_cancellation_outcome, cancellation_outcome_row,
  guard_cancellation_outcome,
}

updated-injective : {a b : CapabilityInvocation} → Outcome.updated a ≡ Outcome.updated b → a ≡ b
updated-injective h = cc

pub record ResultWrite (env : Services) (invocation row : CapabilityInvocation)
    (result : InvocationResult) (refs : List EvidenceRef) : Type 0 where
  pub attested : Option OwnerVerification
  pub is_open : is_invocation_terminal invocation ≡ false
  pub is_result : status_is result.status InvocationStatus.pending ≡ false
  pub is_allowed :
      is_invocation_update_allowed invocation.status
        (result_status (next_owner invocation attested) result.status)
      ≡ true
  pub is_row :
      row
      ≡ result_row env invocation result
          (result_status (next_owner invocation attested) result.status)
          (next_owner invocation attested)
          refs

-- The delivery state that a handoff records.
abbrev pub handoff_state : HandoffUpdate → DeliveryState
handoff_state update = or_else update.delivery_state DeliveryState.uncertain

pub record HandoffWrite (env : Services) (invocation row : CapabilityInvocation)
    (update : HandoffUpdate) : Type 0 where
  pub is_open : is_invocation_terminal invocation ≡ false
  pub is_allowed :
      is_invocation_update_allowed invocation.status (handoff_status (handoff_state update)) ≡ true
  pub is_row : row ≡ handoff_row env invocation (handoff_state update) update

pub record ReconciliationWrite (env : Services) (invocation row : CapabilityInvocation)
    (update : ReconciliationUpdate) : Type 0 where
  pub is_open : is_invocation_terminal invocation ≡ false
  pub is_submitted : is_not_submitted invocation.delivery.state ≡ false
  pub is_observed : is_observed_state update.delivery_state ≡ true
  pub not_completed :
      status_is (or_else update.status invocation.status) InvocationStatus.completed ≡ false
  pub is_allowed :
      is_invocation_update_allowed invocation.status (or_else update.status invocation.status)
      ≡ true
  pub is_row : row ≡ reconciliation_row env invocation update

pub record CancellationWrite (env : Services) (invocation row : CapabilityInvocation)
    (update : CancellationOutcomeUpdate) : Type 0 where
  pub is_open : is_invocation_terminal invocation ≡ false
  pub is_observed : is_observed_state update.delivery_state ≡ true
  pub is_same_or_cancelled :
      (status_is (or_else update.status invocation.status) invocation.status
        || status_is (or_else update.status invocation.status) InvocationStatus.cancelled)
      ≡ true
  pub is_allowed :
      is_invocation_update_allowed invocation.status (or_else update.status invocation.status)
      ≡ true
  pub is_row : row ≡ cancellation_outcome_row env invocation update

-- What a retry has checked: the rule for a safe retry, and that the last attempt has failed.
pub record RetryWrite (env : Services) (invocation row : CapabilityInvocation)
    (correlation_id : Text) : Type 0 where
  pub is_eligible : is_safe_retry_eligible invocation env.now ≡ true
  pub not_asked_to_cancel : invocation.cancellation.requested ≡ false
  pub last : CapabilityInvocationAttempt
  pub backoff_ms : ℕ
  pub is_last : last? invocation.attempts ≡ some last
  pub is_failed : attempt_is_failed last.state ≡ true
  pub is_row :
      row
      ≡ retry_row env invocation
          (max invocation.retry.attempt (last.attempt + 1))
          backoff_ms
          correlation_id

-- A chain of seven guards is passed when each of its tests is false.
seven_guards :
    (a b c d e f g : Bool) (e1 e2 e3 e4 e5 e6 e7 : EngineError) {u : Unit {0}}
    → (reject_if a e1
        >> reject_if b e2
        >> reject_if c e3
        >> reject_if d e4
        >> reject_if e e5
        >> reject_if f e6
        >> reject_if g e7)
      ≡ ok u
    → (b ≡ false) × (d ≡ false) × (e ≡ false)
seven_guards a b c d e f g _ _ _ _ _ _ _ h = (ground arith, ground arith, ground arith)

module _ (env : Services) where
  guard_result-not_pending :
      (b : Bool) (invocation : CapabilityInvocation) (status : InvocationStatus) {u : Unit {0}}
      → guard_result env b invocation status ≡ ok u
      → status_is status InvocationStatus.pending ≡ false
  unfolding guard_result
  guard_result-not_pending b invocation status h = ground arith

  pub apply_result-eq-updated :
      (b : Bool) (invocation : CapabilityInvocation) (result : InvocationResult)
      (refs : List EvidenceRef) (claim : Option OwnerVerification) {row : CapabilityInvocation}
      → apply_result env b invocation result refs claim ≡ ok (Outcome.updated row)
      → ResultWrite env invocation row result refs
  unfolding apply_result
  apply_result-eq-updated b invocation result refs claim h =
      elim (Bool-cases (status_is result.status InvocationStatus.cancelled)) [
        | inl c ↦ absurd (cc (simp c at h))
        | inr c ↦ elim (Bool-cases (is_invocation_terminal invocation)) [
          | inl t ↦ absurd (cc (simp (c, t) at h))
          | inr live ↦
              let h2 = simp (c, live) at h in
              let (u, g, h3) = >>=-eq-ok (guard_result env b invocation result.status) _ h2 in
              let (attested, a, h4) = >>=-eq-ok (attest_claim env claim invocation) _ h3 in
              let status = result_status (next_owner invocation attested) result.status in
              elim (Bool-cases (is_invocation_update_allowed invocation.status status)) [
                | inr refused ↦ absurd (cc (simp refused at h4))
                | inl allowed ↦
                    let h5 = simp allowed at h4 in
                    elim (Bool-cases (is_repeated_failure env invocation status attested refs)) [
                      | inl again ↦ absurd (cc (simp again at h5))
                      | inr new ↦ record {
                        attested = attested;
                        is_open = live;
                        is_result = guard_result-not_pending b invocation result.status g;
                        is_allowed = allowed;
                        is_row = cc (simp new at h5);
                      }
                    ]
              ]
        ]
      ]

  pub mark_handoff-eq-updated :
      (invocation : CapabilityInvocation) (update : HandoffUpdate) {row : CapabilityInvocation}
      → mark_handoff env invocation update ≡ ok (Outcome.updated row)
      → HandoffWrite env invocation row update
  unfolding mark_handoff
  mark_handoff-eq-updated invocation update h = record {
    is_open = ground arith;
    is_allowed = ground arith;
    is_row = ground arith;
  }

  pub mark_reconciliation-eq-updated :
      (invocation : CapabilityInvocation) (update : ReconciliationUpdate)
      {row : CapabilityInvocation}
      → mark_reconciliation env invocation update ≡ ok (Outcome.updated row)
      → ReconciliationWrite env invocation row update
  unfolding mark_reconciliation
  mark_reconciliation-eq-updated invocation update h = record {
    is_open = ground arith;
    is_submitted = ground arith;
    is_observed = ground arith;
    not_completed = ground arith;
    is_allowed = ground arith;
    is_row = ground arith;
  }

  guard_cancellation_outcome-ok :
      (invocation : CapabilityInvocation) (update : CancellationOutcomeUpdate)
      (status : InvocationStatus) {u : Unit {0}}
      → guard_cancellation_outcome env invocation update status ≡ ok u
      → (is_observed_state update.delivery_state ≡ true)
        × ((status_is status invocation.status || status_is status InvocationStatus.cancelled)
            ≡ true)
        × (is_invocation_update_allowed invocation.status status ≡ true)
  unfolding guard_cancellation_outcome
  guard_cancellation_outcome-ok invocation update status h =
      let g = seven_guards _ _ _ _ _ _ _ _ _ _ _ _ _ _ h in
      (ground arith, ground arith, ground arith)

  pub record_cancellation_outcome-eq-updated :
      (invocation : CapabilityInvocation) (update : CancellationOutcomeUpdate)
      {row : CapabilityInvocation}
      → record_cancellation_outcome env invocation update ≡ ok (Outcome.updated row)
      → CancellationWrite env invocation row update
  unfolding record_cancellation_outcome
  record_cancellation_outcome-eq-updated invocation update h =
      elim (Bool-cases (is_invocation_terminal invocation)) [
        | inl t ↦ absurd (cc (simp t at h))
        | inr live ↦
            let (u, g, h1) =
              >>=-eq-ok
                (guard_cancellation_outcome env invocation update
                  (or_else update.status invocation.status))
                _ (simp live at h) in
            let (observed, same, allowed) = guard_cancellation_outcome-ok invocation update _ g in
            record {
              is_open = live;
              is_observed = observed;
              is_same_or_cancelled = same;
              is_allowed = allowed;
              is_row = cc h1;
            }
      ]

  retry_after-eq-ok :
      (invocation : CapabilityInvocation) (last : CapabilityInvocationAttempt) (requested : ℕ)
      (correlation_id : Text) {row : CapabilityInvocation}
      → retry_after env invocation last requested correlation_id ≡ ok row
      → (backoff_ms : ℕ) × (row
          ≡ retry_row env invocation
              (max invocation.retry.attempt (last.attempt + 1))
              backoff_ms
              correlation_id)
  unfolding retry_after
  retry_after-eq-ok invocation last requested correlation_id h = (
    retry_backoff_ms invocation.retry.backoff requested
        (max invocation.retry.attempt (last.attempt + 1)),
    ground arith,
  )

  guard_retry-ok :
      (invocation : CapabilityInvocation) {u : Unit {0}}
      → guard_retry env invocation ≡ ok u
      → (is_safe_retry_eligible invocation env.now ≡ true)
        × (invocation.cancellation.requested ≡ false)
  unfolding guard_retry
  guard_retry-ok invocation h = (ground arith, ground arith)

  pub prepare_retry-eq-ok :
      (invocation : CapabilityInvocation) (backoff_ms : Option ℕ) (correlation_id : Text)
      {row : CapabilityInvocation}
      → prepare_retry env invocation backoff_ms correlation_id ≡ ok row
      → RetryWrite env invocation row correlation_id
  unfolding prepare_retry
  prepare_retry-eq-ok invocation backoff_ms correlation_id h =
      let (u, g, h1) = >>=-eq-ok (guard_retry env invocation) _ h in
      let (eligible, kept) = guard_retry-ok invocation g in
      elim (Option-cases (last? invocation.attempts)) [
        | inl empty ↦ absurd (cc (simp empty at h1))
        | inr (attempt, is_last) ↦ elim (Bool-cases (attempt_is_failed attempt.state)) [
          | inr other ↦ absurd (cc (simp (is_last, other) at h1))
          | inl is_failed ↦
              let (backoff, is_row) =
                retry_after-eq-ok invocation attempt _ correlation_id
                  (simp (is_last, is_failed) at h1) in
              record {
                is_eligible = eligible;
                not_asked_to_cancel = kept;
                last = attempt;
                backoff_ms = backoff;
                is_last = is_last;
                is_failed = is_failed;
                is_row = is_row;
              }
        ]
      ]

  -- The late facts passed the assertions of a durable write.
  pub apply_late_facts-eq-updated :
      (invocation : CapabilityInvocation) (evidence : List EvidenceRef) (status : InvocationStatus)
      (refs : List EvidenceRef) (claim : Option OwnerVerification) {row : CapabilityInvocation}
      → apply_late_facts env invocation evidence status refs claim ≡ ok (Outcome.updated row)
      → (attested : OwnerVerification) × (row ≡ late_row env invocation status attested refs)
        × (assert_row env row ≡ ok tt)
  unfolding apply_late_facts
  apply_late_facts-eq-updated invocation evidence status refs none h = absurd (cc h)
  apply_late_facts-eq-updated invocation evidence status refs (some claim) {row} h =
      elim (Bool-cases (
        status_is status InvocationStatus.pending
        || status_is status InvocationStatus.dispatched)) [
          | inl early ↦ absurd (cc (simp early at h))
          | inr later ↦
              let (attested, a, h1) = >>=-eq-ok (attest env claim invocation) _ (simp later at h) in
              let new = late_row env invocation status attested refs in
              elim (Bool-cases (late_row_changed env invocation new evidence refs)) [
                | inr same ↦ absurd (cc (simp same at h1))
                | inl changed ↦
                    let (u, asserted, h2) =
                      >>=-eq-ok (assert_row env new) (λ _. ok (Outcome.updated new))
                        (simp changed at h1) in
                    let is_row : row ≡ new = cc h2 in (attested, is_row, rw is_row asserted)
              ]
        ]
