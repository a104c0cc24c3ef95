-- ===== src/Mission/Engine/Delivery.antt =====
-- markInvocationHandoff and markInvocationReconciliation of cli/src/mission/mission-engine.ts, on
-- the row that they read.
use ouroboros_runtime.Base.{
  ℕ, Bool, true, false, not, ◌&&◌, ◌||◌, Option, none, some, map_last, if◌then◌else◌, Result, ok,
  ◌>>◌, reject_if,
}
use ouroboros_runtime.Base.Text.{Text, text}
use ouroboros_runtime.Mission.Contracts.{
  CapabilityInvocation, CapabilityInvocationAttempt, InvocationStatus, AttemptState, DeliveryState,
  ReconciliationState, ReconciliationOutcome, status_is, is_invocation_terminal,
  is_invocation_update_allowed,
}
use ouroboros_runtime.Mission.Engine.Services.{Services, EngineError, check_opaque, option_or}
use ouroboros_runtime.Mission.Engine.Attempts.{
  is_not_submitted, is_acknowledged, update_attempt, reconciliation_delivery,
  is_handoff_delivery_update_allowed,
}
use ouroboros_runtime.Mission.Engine.Results.{Outcome, is_pending_reconciliation, is_resolved}

-- InvocationHandoffUpdate
pub record HandoffUpdate : Type 0 where
  pub delivery_state : Option DeliveryState
  pub remote_operation_handle : Option Text
  pub correlation_id : Option Text

-- InvocationReconciliationUpdate
pub record ReconciliationUpdate : Type 0 where
  pub state : ReconciliationState
  pub outcome : Option ReconciliationOutcome
  pub next_action : Option Text
  pub last_checked_at : Option ℕ
  pub delivery_state : Option DeliveryState
  pub status : Option InvocationStatus

-- The delivery states that each update may name.
abbrev is_handoff_state : Option DeliveryState → Bool
is_handoff_state (some DeliveryState.not_submitted) = false
is_handoff_state (some DeliveryState.failed) = false
is_handoff_state _ = true

abbrev pub is_observed_state : Option DeliveryState → Bool
is_observed_state (some DeliveryState.not_submitted) = false
is_observed_state (some DeliveryState.submitted) = false
is_observed_state _ = true

abbrev check_optional : Services → Option Text → Result EngineError (Unit {0})
check_optional env none = ok tt
check_optional env (some t) = check_opaque env t

abbrev pub or_else : {A : Type 0} → Option A → A → A
or_else none a = a
or_else (some b) a = b

-- The last attempt, where it had not been answered yet.
unfoldable pub handed_off_attempt :
    DeliveryState → Option Text → CapabilityInvocationAttempt → CapabilityInvocationAttempt
handed_off_attempt delivery correlation_id a =
    let state : AttemptState = elim delivery [
      | DeliveryState.acknowledged ↦ AttemptState.acknowledged
      | DeliveryState.running ↦ AttemptState.acknowledged
      | DeliveryState.uncertain ↦ AttemptState.uncertain
      | _ ↦ AttemptState.submitted
    ] in
    let marked = record a {
      correlation_id = or_else correlation_id a.correlation_id;
      state = state;
    } in
    elim a.state [ AttemptState.prepared ↦ marked | AttemptState.submitted ↦ marked | _ ↦ a ]

abbrev pub is_unanswered : DeliveryState → Bool
is_unanswered DeliveryState.uncertain = true
is_unanswered DeliveryState.submitted = true
is_unanswered _ = false

abbrev pub handoff_status : DeliveryState → InvocationStatus
handoff_status DeliveryState.running = InvocationStatus.running
handoff_status _ = InvocationStatus.dispatched

abbrev settles : ReconciliationState → InvocationStatus → Bool
settles state status =
    is_resolved state
    && (status_is status InvocationStatus.completed || status_is status InvocationStatus.failed)

abbrev pub claims_outcome : Option ReconciliationOutcome → Bool
claims_outcome (some ReconciliationOutcome.performed) = true
claims_outcome (some ReconciliationOutcome.not_performed) = true
claims_outcome _ = false

module _ (env : Services) where
  unfoldable pub handoff_row :
      CapabilityInvocation → DeliveryState → HandoffUpdate → CapabilityInvocation
  handoff_row invocation state update =
      let d = invocation.delivery in
      record invocation {
        status =
            if status_is invocation.status InvocationStatus.running
            then InvocationStatus.running
            else handoff_status state;
        dispatched_at = option_or invocation.dispatched_at (some env.now);
        delivery = record d {
          state = state;
          acknowledged_at = if is_acknowledged state then some env.now else d.acknowledged_at;
          remote_operation_handle =
              option_or update.remote_operation_handle d.remote_operation_handle;
        };
        attempts = map_last (handed_off_attempt state update.correlation_id) invocation.attempts;
        reconciliation =
            if is_unanswered state
            then record (invocation.reconciliation) {
              state = ReconciliationState.pending;
              next_action = some (text "reconcile before retry");
            }
            else invocation.reconciliation;
        updated_at = env.now;
      }

  unfoldable pub mark_handoff : CapabilityInvocation → HandoffUpdate → Result EngineError Outcome
  mark_handoff invocation update =
      let state = or_else update.delivery_state DeliveryState.uncertain in
      if is_invocation_terminal invocation
      then ok Outcome.unchanged
      else reject_if invocation.cancellation.requested EngineError.cancellation_requested
        >> reject_if (not (is_handoff_state update.delivery_state)) EngineError.bad_update
        >> check_optional env update.correlation_id
        >> check_optional env update.remote_operation_handle
        >> reject_if (not (is_handoff_delivery_update_allowed invocation.delivery.state state))
            EngineError.delivery_regression
        >> reject_if (not (is_invocation_update_allowed invocation.status (handoff_status state)))
            EngineError.status_regression
        >> ok (Outcome.updated (handoff_row invocation state update))

  unfoldable pub reconciliation_row :
      CapabilityInvocation → ReconciliationUpdate → CapabilityInvocation
  reconciliation_row invocation update =
      let status = or_else update.status invocation.status in
      let completed_at =
        if settles update.state status
        then option_or invocation.completed_at (some env.now)
        else invocation.completed_at in
      record invocation {
        status = status;
        delivery = record (invocation.delivery) {
          state =
              or_else update.delivery_state
                (reconciliation_delivery update.outcome invocation.delivery.state);
        };
        completed_at = completed_at;
        attempts =
            update_attempt invocation status completed_at
              (env.sanitize_text (or_else update.next_action (text "reconciliation")));
        reconciliation = record (invocation.reconciliation) {
          state = update.state;
          outcome = option_or update.outcome invocation.reconciliation.outcome;
          last_checked_at = some (or_else update.last_checked_at env.now);
          next_action = elim update.next_action [
            | none ↦ invocation.reconciliation.next_action
            | some t ↦ some (env.sanitize_text t)
          ];
        };
        updated_at = env.now;
      }

  unfoldable pub mark_reconciliation :
      CapabilityInvocation → ReconciliationUpdate → Result EngineError Outcome
  mark_reconciliation invocation update =
      let status = or_else update.status invocation.status in
      if is_invocation_terminal invocation
      then ok Outcome.unchanged
      else reject_if (not (is_observed_state update.delivery_state)) EngineError.bad_update
        >> reject_if (is_not_submitted invocation.delivery.state) EngineError.not_submitted
        >> reject_if (not (is_pending_reconciliation invocation.reconciliation.state))
            EngineError.no_pending_reconciliation
        >> reject_if (claims_outcome update.outcome || status_is status InvocationStatus.completed)
            EngineError.owner_boundary
        >> reject_if (status_is status InvocationStatus.cancelled) EngineError.cancellation_path
        >> reject_if (not (is_invocation_update_allowed invocation.status status))
            EngineError.status_regression
        >> ok (Outcome.updated (reconciliation_row invocation update))
