-- ===== src/Mission/Engine/Cancel.antt =====
-- Cancellation in cli/src/mission/mission-engine.ts: the row that cancelMission and
-- cancelUnsubmitted write, and recordInvocationCancellationOutcome.
use ouroboros_runtime.Base.{
  ℕ, Bool, true, false, not, ◌&&◌, ◌||◌, Option, none, some, ◌++◌, map, if◌then◌else◌, Result, ok,
  ◌>>◌, reject_if,
}
use ouroboros_runtime.Base.Text.{Text, text}
use ouroboros_runtime.Mission.Contracts.{
  CapabilityInvocation, CapabilityInvocationAttempt, CapabilityInvocationCancellation,
  InvocationStatus, AttemptState, DeliveryState, CancellationState, CancellationSupport,
  ReconciliationState, ReconciliationOutcome, status_is, is_invocation_terminal,
  is_invocation_update_allowed,
}
use ouroboros_runtime.Mission.Engine.Services.{Services, EngineError, option_or}
use ouroboros_runtime.Mission.Engine.Attempts.{
  is_not_submitted, update_attempt, is_cancellation_state_update_allowed,
}
use ouroboros_runtime.Mission.Engine.Results.{Outcome, is_resolved}
use ouroboros_runtime.Mission.Engine.Retry.{no_delivery}
use ouroboros_runtime.Mission.Engine.Delivery.{or_else, is_observed_state, claims_outcome}

-- InvocationCancellationOutcomeUpdate
pub record CancellationOutcomeUpdate : Type 0 where
  pub state : CancellationState
  pub status : Option InvocationStatus
  pub delivery_state : Option DeliveryState
  pub reconciliation_state : Option ReconciliationState
  pub outcome : Option ReconciliationOutcome
  pub next_action : Option Text

abbrev is_not_requested : CancellationState → Bool
is_not_requested CancellationState.not_requested = true
is_not_requested _ = false

abbrev is_cancel_acknowledged : CancellationState → Bool
is_cancel_acknowledged CancellationState.acknowledged = true
is_cancel_acknowledged _ = false

abbrev is_not_required : Option ReconciliationState → Bool
is_not_required (some ReconciliationState.not_required) = true
is_not_required _ = false

abbrev is_hard : CancellationSupport → Bool
is_hard CancellationSupport.hard = true
is_hard _ = false

-- What a connector that cannot cancel makes of the request.
abbrev requested_state : CancellationSupport → CancellationState
requested_state CancellationSupport.unsupported = CancellationState.unsupported
requested_state CancellationSupport.none = CancellationState.unsupported
requested_state _ = CancellationState.requested

abbrev is_not_performed : Option ReconciliationOutcome → Bool
is_not_performed (some ReconciliationOutcome.not_performed) = true
is_not_performed _ = false

-- A prepared attempt fails with the cancellation, any other stays.
unfoldable pub cancelled_attempt :
    ℕ → Text → CapabilityInvocationAttempt → CapabilityInvocationAttempt
cancelled_attempt now reason a = elim a.state [
  | AttemptState.prepared ↦ record a {
    state = AttemptState.failed;
    finished_at = some now;
    error = some (text "cancelled: " ++ reason);
  }
  | _ ↦ a
]

module _ (env : Services) where
  unfoldable pub cancel_request :
      CapabilityInvocation
      → CancellationState
      → (reason : Text) → (by : Option Text) → CapabilityInvocationCancellation
  cancel_request invocation state reason by = record (invocation.cancellation) {
    requested = true;
    requested_at = some env.now;
    requested_by = elim by [
      | none ↦ invocation.cancellation.requested_by
      | some t ↦ some (env.sanitize_text t)
    ];
    state = state;
    reason = some (env.sanitize_text reason);
  }

  -- The row of an invocation that never crossed the connector boundary.
  unfoldable pub cancelled_row : CapabilityInvocation → Text → Option Text → CapabilityInvocation
  cancelled_row invocation reason by = record invocation {
    status = InvocationStatus.cancelled;
    completed_at = some env.now;
    updated_at = env.now;
    cancellation = cancel_request invocation CancellationState.acknowledged reason by;
    attempts = map (cancelled_attempt env.now (env.sanitize_text reason)) invocation.attempts;
  }

  -- The row of an invocation whose cancellation is now asked of the connector.
  unfoldable pub cancellation_requested_row :
      CapabilityInvocation → Text → Option Text → CapabilityInvocation
  cancellation_requested_row invocation reason by = record invocation {
    updated_at = env.now;
    cancellation =
        cancel_request invocation (requested_state invocation.cancellation.support) reason by;
    reconciliation = record (invocation.reconciliation) {
      state = ReconciliationState.pending;
      next_action = some (text "reconcile cancellation before any retry");
      last_checked_at = some env.now;
    };
  }

  -- The body of the loop of cancelMission. There, a new delivery record replaces the old one.
  unfoldable pub cancel_with_mission : CapabilityInvocation → Text → Option Text → Outcome
  cancel_with_mission invocation reason by =
      if is_invocation_terminal invocation
      then Outcome.unchanged
      else if is_not_submitted invocation.delivery.state
      then Outcome.updated (record (cancelled_row invocation reason by) { delivery = no_delivery })
      else Outcome.updated (cancellation_requested_row invocation reason by)

  unfoldable pub cancel_unsubmitted :
      CapabilityInvocation → Text → Option Text → Result EngineError Outcome
  cancel_unsubmitted invocation reason by =
      if is_invocation_terminal invocation
      then ok Outcome.unchanged
      else reject_if (not (is_not_submitted invocation.delivery.state))
          EngineError.already_submitted
        >> ok (Outcome.updated (cancelled_row invocation reason by))

  unfoldable pub cancellation_outcome_row :
      CapabilityInvocation → CancellationOutcomeUpdate → CapabilityInvocation
  cancellation_outcome_row invocation update =
      let status = or_else update.status invocation.status in
      let is_cancelled = status_is status InvocationStatus.cancelled in
      let completed_at =
        if is_cancelled
        then option_or invocation.completed_at (some env.now)
        else invocation.completed_at in
      record invocation {
        status = status;
        completed_at = completed_at;
        delivery = record (invocation.delivery) {
          state =
              or_else update.delivery_state
                (if is_cancelled then DeliveryState.failed else invocation.delivery.state);
        };
        cancellation = record (invocation.cancellation) { requested = true; state = update.state };
        reconciliation = record (invocation.reconciliation) {
          state =
              or_else update.reconciliation_state (
                if is_cancelled then ReconciliationState.resolved else ReconciliationState.pending);
          outcome = option_or update.outcome (
              some (
                if is_cancelled
                then ReconciliationOutcome.not_performed
                else ReconciliationOutcome.unknown));
          last_checked_at = some env.now;
          next_action = elim update.next_action [
            | none ↦ invocation.reconciliation.next_action
            | some t ↦ some (env.sanitize_text t)
          ];
        };
        attempts =
            update_attempt invocation status completed_at (
              env.sanitize_text
                (or_else update.next_action (text "cancellation outcome recorded")));
        updated_at = env.now;
      }

  -- The guards behind the early return, for the status that the update asks for.
  unfoldable pub guard_cancellation_outcome :
      CapabilityInvocation
      → CancellationOutcomeUpdate
      → InvocationStatus
      → Result EngineError (Unit {0})
  guard_cancellation_outcome invocation update status =
      let is_cancelled = status_is status InvocationStatus.cancelled in
      reject_if (not invocation.cancellation.requested) EngineError.cancellation_not_requested
      >> reject_if
          (is_not_requested update.state
            || not (is_observed_state update.delivery_state)
            || is_not_required update.reconciliation_state)
          EngineError.bad_update
      >> reject_if
          (not (is_cancellation_state_update_allowed invocation.cancellation.state update.state))
          EngineError.cancellation_regression
      >> reject_if (not (status_is status invocation.status) && not is_cancelled)
          EngineError.cancellation_status
      >> reject_if (not (is_invocation_update_allowed invocation.status status))
          EngineError.status_regression
      >> reject_if
          (is_cancelled
            && (not (is_hard invocation.cancellation.support)
                || not (is_cancel_acknowledged update.state)
                || not (is_not_performed update.outcome)))
          EngineError.no_hard_cancellation
      >> reject_if
          (not is_cancelled
            && ((elim update.reconciliation_state [ none ↦ false | some s ↦ is_resolved s ])
                || claims_outcome update.outcome))
          EngineError.outcome_not_authorized

  unfoldable pub record_cancellation_outcome :
      CapabilityInvocation → CancellationOutcomeUpdate → Result EngineError Outcome
  record_cancellation_outcome invocation update =
      if is_invocation_terminal invocation
      then ok Outcome.unchanged
      else guard_cancellation_outcome invocation update (or_else update.status invocation.status)
        >> ok (Outcome.updated (cancellation_outcome_row invocation update))
