-- ===== src/Mission/Engine/Retry.antt =====
-- prepareInvocationRetry of cli/src/mission/mission-engine.ts, on the row that it reads.
use ouroboros_runtime.Base.{
  ℕ, ◌+◌, ◌-◌, ◌*◌, ◌^◌, max, Bool, true, false, not, ◌&&◌, Option, none, some, [], ◌∷◌, ◌++◌,
  last?, ltb, if◌then◌else◌, Result, ok, err, ◌>>◌, reject_if,
}
use ouroboros_runtime.Base.Text.{Text}
use ouroboros_runtime.Mission.Contracts.{
  CapabilityInvocation, CapabilityInvocationAttempt, CapabilityInvocationDelivery, InvocationStatus,
  AttemptState, DeliveryState, ReconciliationState, RetryBackoff, rejects, is_safe_retry_eligible,
}
use ouroboros_runtime.Mission.Engine.Services.{Services, EngineError, check_opaque}
use ouroboros_runtime.Mission.Engine.Attempts.{is_not_submitted, attempt_is_failed}
use ouroboros_runtime.Mission.Engine.Rows.{assert_row}

-- Number.MAX_SAFE_INTEGER, and the last millisecond that a Date can hold.
abbrev pub max_safe_integer : ℕ
max_safe_integer = 9007199254740991

abbrev pub max_date : ℕ
max_date = 8640000000000000

abbrev is_delivery_failed : DeliveryState → Bool
is_delivery_failed DeliveryState.failed = true
is_delivery_failed _ = false

-- A delivery of which only the state is given.
abbrev pub no_delivery : CapabilityInvocationDelivery
no_delivery = record {
  state = DeliveryState.not_submitted;
  acknowledged_at = none;
  remote_operation_handle = none;
}

unfoldable pub retry_backoff_ms : RetryBackoff → ℕ → ℕ → ℕ
retry_backoff_ms RetryBackoff.exponential requested next = requested * 2 ^ (next - 1)
retry_backoff_ms _ requested next = requested

module _ (env : Services) where
  unfoldable pub retry_row :
      CapabilityInvocation → (next backoff_ms : ℕ) → Text → CapabilityInvocation
  retry_row invocation next backoff_ms correlation_id = record invocation {
    status = InvocationStatus.pending;
    completed_at = none;
    error = none;
    retry = record (invocation.retry) {
      attempt = next;
      backoff_ms = backoff_ms;
      next_eligible_at = some (env.now + backoff_ms);
    };
    attempts =
        invocation.attempts
        ++ record {
          attempt = next;
          correlation_id = correlation_id;
          state = AttemptState.prepared;
          started_at = env.now;
          finished_at = none;
          error = none;
        }
          ∷ [];
    delivery = no_delivery;
    reconciliation = record (invocation.reconciliation) {
      state = ReconciliationState.not_required;
      last_checked_at = none;
      outcome = none;
      next_action = none;
    };
    updated_at = env.now;
  }

  -- From where the last attempt is known to have failed.
  unfoldable pub retry_after :
      CapabilityInvocation
      → CapabilityInvocationAttempt
      → (requested : ℕ) → Text
      → Result EngineError CapabilityInvocation
  retry_after invocation attempt requested correlation_id =
      let next = max invocation.retry.attempt (attempt.attempt + 1) in
      let backoff_ms = retry_backoff_ms invocation.retry.backoff requested next in
      let row = retry_row invocation next backoff_ms correlation_id in
      reject_if (ltb max_safe_integer requested) EngineError.bad_backoff
      >> reject_if (ltb max_safe_integer backoff_ms) EngineError.unsafe_backoff
      >> reject_if (ltb max_date (env.now + backoff_ms)) EngineError.invalid_date
      >> check_opaque env correlation_id
      >> assert_row env row
      >> ok row

  -- The guards in front of the read of the last attempt.
  unfoldable pub guard_retry : CapabilityInvocation → Result EngineError (Unit {0})
  guard_retry invocation =
      reject_if (rejects invocation.owner_verification) EngineError.owner_rejected
      >> reject_if (not (is_safe_retry_eligible invocation env.now)) EngineError.not_retry_eligible
      >> reject_if
          (not (is_delivery_failed invocation.delivery.state)
            && not (is_not_submitted invocation.delivery.state))
          EngineError.delivery_not_failed
      >> reject_if invocation.cancellation.requested EngineError.cancellation_requested

  -- `backoff_ms` is the option of the call, `correlation_id` the id that is generated for it.
  unfoldable pub prepare_retry :
      CapabilityInvocation
      → (backoff_ms : Option ℕ) → (correlation_id : Text) → Result EngineError CapabilityInvocation
  prepare_retry invocation backoff_ms correlation_id =
      guard_retry invocation >> elim (last? invocation.attempts) [
        | none ↦ err EngineError.no_failed_attempt
        | some attempt ↦
            if attempt_is_failed attempt.state
            then retry_after invocation attempt
                (elim backoff_ms [ none ↦ invocation.retry.backoff_ms | some b ↦ b ]) correlation_id
            else err EngineError.no_failed_attempt
      ]
