-- ===== src/Mission/Contracts/Invocation.antt =====
-- The capability invocation of cli/src/mission/contracts.ts, and the rules that file states for it.
use ouroboros_runtime.Base.{
  ℕ, Bool, true, false, not, ◌&&◌, ◌||◌, Option, none, some, List, any, ltb, leb,
}
use ouroboros_runtime.Base.Text.{Text, text, text_eq, starts_with}
use ouroboros_runtime.Mission.Contracts.States.{
  EffectClass, InvocationStatus, IdempotencyMode, RetryBackoff, CancellationSupport,
  ReconciliationSupport, AttemptState, DeliveryState, CancellationState, ReconciliationState,
  ReconciliationOutcome, OwnerVerificationState, status_is,
}

pub record EvidenceRef : Type 0 where
  pub ref_id : Text
  pub owner : Text
  pub external_ref : Text
  pub label : Text

pub record OwnerVerification : Type 0 where
  pub invocation_id : Text
  pub verified : Bool
  pub reason : Text
  pub owner : Text
  pub verified_at : ℕ

pub record CapabilityInvocationAttempt : Type 0 where
  pub attempt : ℕ
  pub correlation_id : Text
  pub state : AttemptState
  pub started_at : ℕ
  pub finished_at : Option ℕ
  pub error : Option Text

pub record CapabilityInvocationDelivery : Type 0 where
  pub state : DeliveryState
  pub acknowledged_at : Option ℕ
  pub remote_operation_handle : Option Text

pub record CapabilityInvocationIdempotency : Type 0 where
  pub mode : IdempotencyMode
  pub key : Option Text

pub record CapabilityInvocationRetry : Type 0 where
  pub max_attempts : ℕ
  pub attempt : ℕ
  pub backoff : RetryBackoff
  pub backoff_ms : ℕ
  pub next_eligible_at : Option ℕ

pub record CapabilityInvocationCancellation : Type 0 where
  pub support : CancellationSupport
  pub requested : Bool
  pub requested_at : Option ℕ
  pub requested_by : Option Text
  pub state : CancellationState
  pub reason : Option Text

pub record CapabilityInvocationReconciliation : Type 0 where
  pub support : ReconciliationSupport
  pub state : ReconciliationState
  pub last_checked_at : Option ℕ
  pub outcome : Option ReconciliationOutcome
  pub next_action : Option Text

-- `CapabilityInvocationRef` and `CapabilityInvocation`, which extends it.
pub record CapabilityInvocation : Type 0 where
  pub invocation_id : Text
  pub mission_id : Text
  pub step_id : Text
  pub capability_id : Text
  pub status : InvocationStatus
  pub dispatched_at : Option ℕ
  pub completed_at : Option ℕ
  pub result_refs : List EvidenceRef
  pub owner_verification : Option OwnerVerification
  pub error : Option Text
  pub plan_revision_id : Text
  pub contract_version : ℕ
  pub module_owner : Text
  pub effect_class : Option EffectClass
  pub request_id : Text
  pub effect_fingerprint : Text
  pub input_refs : List Text
  pub idempotency : CapabilityInvocationIdempotency
  pub retry : CapabilityInvocationRetry
  pub attempts : List CapabilityInvocationAttempt
  pub delivery : CapabilityInvocationDelivery
  pub cancellation : CapabilityInvocationCancellation
  pub reconciliation : CapabilityInvocationReconciliation
  pub owner_verification_state : OwnerVerificationState
  pub created_at : ℕ
  pub updated_at : ℕ

pub record InvocationResult : Type 0 where
  pub invocation_id : Text
  pub status : InvocationStatus
  pub summary : Text
  pub evidence_refs : List EvidenceRef
  pub completed_at : Option ℕ

-- isInvocationTerminal, of the status that it reads
unfoldable pub is_status_terminal : InvocationStatus → Bool
is_status_terminal InvocationStatus.completed = true
is_status_terminal InvocationStatus.cancelled = true
is_status_terminal _ = false

abbrev pub is_invocation_terminal : CapabilityInvocation → Bool
is_invocation_terminal inv = is_status_terminal inv.status

abbrev pub attempt_is_uncertain : CapabilityInvocationAttempt → Bool
attempt_is_uncertain a = elim a.state [ AttemptState.uncertain ↦ true | _ ↦ false ]

abbrev pub delivery_is_uncertain : DeliveryState → Bool
delivery_is_uncertain DeliveryState.uncertain = true
delivery_is_uncertain _ = false

unfoldable pub has_uncertain_delivery : CapabilityInvocation → Bool
has_uncertain_delivery inv =
    delivery_is_uncertain inv.delivery.state || any attempt_is_uncertain inv.attempts

unfoldable pub is_legacy_replay_barrier : CapabilityInvocation → Bool
is_legacy_replay_barrier inv = starts_with inv.effect_fingerprint (text "legacy:")

unfoldable pub is_invocation_due : CapabilityInvocation → ℕ → Bool
is_invocation_due inv now = elim inv.retry.next_eligible_at [ none ↦ true | some at ↦ leb at now ]

-- `ownerVerification?.verified === false`
abbrev pub rejects : Option OwnerVerification → Bool
rejects none = false
rejects (some v) = not v.verified

abbrev pub is_idempotent : IdempotencyMode → Bool
is_idempotent IdempotencyMode.idempotent = true
is_idempotent _ = false

unfoldable pub is_safe_retry_eligible : CapabilityInvocation → ℕ → Bool
is_safe_retry_eligible inv now =
    not (rejects inv.owner_verification)
    && status_is inv.status InvocationStatus.failed
    && ltb inv.retry.attempt inv.retry.max_attempts
    && is_idempotent inv.idempotency.mode
    && not (has_uncertain_delivery inv)
    && is_invocation_due inv now

-- The table `allowed` of isInvocationUpdateAllowed: the statuses that may follow another one.
abbrev pub status_may_follow : InvocationStatus → InvocationStatus → Bool
status_may_follow InvocationStatus.pending InvocationStatus.pending = false
status_may_follow InvocationStatus.pending _ = true
status_may_follow InvocationStatus.dispatched InvocationStatus.pending = false
status_may_follow InvocationStatus.dispatched InvocationStatus.dispatched = false
status_may_follow InvocationStatus.dispatched _ = true
status_may_follow InvocationStatus.running InvocationStatus.completed = true
status_may_follow InvocationStatus.running InvocationStatus.failed = true
status_may_follow InvocationStatus.running InvocationStatus.blocked = true
status_may_follow InvocationStatus.running InvocationStatus.cancelled = true
status_may_follow InvocationStatus.failed InvocationStatus.pending = true
status_may_follow InvocationStatus.blocked InvocationStatus.running = true
status_may_follow InvocationStatus.blocked InvocationStatus.completed = true
status_may_follow InvocationStatus.blocked InvocationStatus.failed = true
status_may_follow InvocationStatus.blocked InvocationStatus.cancelled = true
status_may_follow _ _ = false

unfoldable pub is_invocation_update_allowed : InvocationStatus → InvocationStatus → Bool
is_invocation_update_allowed current next = status_is current next || status_may_follow current next
