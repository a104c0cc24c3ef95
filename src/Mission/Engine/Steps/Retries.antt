-- ===== src/Mission/Engine/Steps/Retries.antt =====
-- When prepareInvocationRetry of cli/src/mission/mission-engine.ts starts another attempt.
use ouroboros_runtime.Base.{
  ℕ, ◌<◌, true, false, ◌≡◌, refl, sym, subst, Option, some, last?, last?-concat, ok, arith,
}
use ouroboros_runtime.Base.Text.{Text}
use ouroboros_runtime.Mission.Contracts.{
  CapabilityInvocation, CapabilityInvocationAttempt, InvocationStatus, AttemptState,
  IdempotencyMode, DeliveryState, rejects, has_uncertain_delivery, is_invocation_due,
  is_safe_retry_eligible,
}
use ouroboros_runtime.Mission.Engine.Services.{Services}
use ouroboros_runtime.Mission.Engine.Retry.{prepare_retry, retry_row}
use ouroboros_runtime.Mission.Engine.Steps.Writes.{prepare_retry-eq-ok}

-- A retry is safe: the effect is idempotent, the last delivery is not uncertain, the owner has not
-- rejected it, nobody asked to cancel it, and the attempts and the backoff allow it.
pub record IsSafe (inv : CapabilityInvocation) (now : ℕ) : Type 0 where
  pub has_failed : inv.status ≡ InvocationStatus.failed
  pub is_idempotent : inv.idempotency.mode ≡ IdempotencyMode.idempotent
  pub is_certain : has_uncertain_delivery inv ≡ false
  pub not_rejected : rejects inv.owner_verification ≡ false
  pub not_asked_to_cancel : inv.cancellation.requested ≡ false
  pub is_below_limit : inv.retry.attempt < inv.retry.max_attempts
  pub is_due : is_invocation_due inv now ≡ true

eligible-IsSafe :
    (inv : CapabilityInvocation) (now : ℕ)
    → is_safe_retry_eligible inv now ≡ true
    → inv.cancellation.requested ≡ false
    → IsSafe inv now
unfolding is_safe_retry_eligible
eligible-IsSafe inv now h c = record {
  has_failed = ground arith;
  is_idempotent = ground arith;
  is_certain = ground arith;
  not_rejected = ground arith;
  not_asked_to_cancel = c;
  is_below_limit = ground arith;
  is_due = ground arith;
}

-- A retry that is prepared was safe, and it leaves a pending invocation that has not been delivered,
-- whose last attempt is a new one under the given correlation id.
pub prepare_retry-IsSafe :
    (env : Services) (inv : CapabilityInvocation) (backoff_ms : Option ℕ) (correlation_id : Text)
    {row : CapabilityInvocation}
    → prepare_retry env inv backoff_ms correlation_id ≡ ok row
    → IsSafe inv env.now
      × (row.status ≡ InvocationStatus.pending)
      × (row.delivery.state ≡ DeliveryState.not_submitted)
      × ((a : CapabilityInvocationAttempt) × (last? row.attempts ≡ some a)
          × (a.state ≡ AttemptState.prepared)
          × (a.correlation_id ≡ correlation_id))
unfolding retry_row
prepare_retry-IsSafe env inv backoff_ms correlation_id {row} h =
    let w = prepare_retry-eq-ok env inv backoff_ms correlation_id h in
    subst
      (λ (r : CapabilityInvocation).
        IsSafe inv env.now
        × (r.status ≡ InvocationStatus.pending)
        × (r.delivery.state ≡ DeliveryState.not_submitted)
        × ((a : CapabilityInvocationAttempt) × (last? r.attempts ≡ some a)
            × (a.state ≡ AttemptState.prepared)
            × (a.correlation_id ≡ correlation_id)))
      (sym w.is_row)
      (
        eligible-IsSafe inv env.now w.is_eligible w.not_asked_to_cancel,
        refl,
        refl,
        (_, last?-concat inv.attempts _, refl, refl),
      )
