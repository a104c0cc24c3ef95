-- ===== src/Mission/Engine/Dispatch.antt =====
-- dispatchStep of cli/src/mission/mission-engine.ts: its gates, the descriptor, and the first row of the
-- invocation. The store's search for an earlier invocation of the same effect is not modelled.
pub mod Correct
use ouroboros_runtime.Base.{
  ℕ, Bool, true, false, not, ◌&&◌, ◌||◌, Option, none, some, List, [], ◌∷◌, all, find?, is_empty,
  is_some, if◌then◌else◌, ◌==◌, ltb, nat_beq, Result, ok, err, ◌>>=◌, ◌>>◌, reject_if,
}
use ouroboros_runtime.Base.Text.{Text, text_eq, is_white}
use ouroboros_runtime.Mission.Contracts.{
  Mission, MissionState, PlanStep, PlanRevision, PlanCandidate, CapabilityContract,
  CapabilityInvocation, ApprovalRequirement, StepApprovalRequirement, InvocationStatus,
  AttemptState, DeliveryState, CancellationState, ReconciliationState, OwnerVerificationState,
  IdempotencyMode, RetryBackoff, CancellationSupport, ReconciliationSupport, state_is,
}
use ouroboros_runtime.Mission.Policy.Validate.{validate, step_fingerprint}
use ouroboros_runtime.Mission.Engine.Services.{Services, EngineError}
use ouroboros_runtime.Mission.Engine.Retry.{no_delivery, max_safe_integer}
use ouroboros_runtime.Mission.Engine.Rows.{assert_row}

pub data KeyScope : Type 0 where
  request effect no_key : KeyScope

-- DispatchDescriptorMetadata
pub record DispatchDescriptor : Type 0 where
  pub contract_version : ℕ
  pub module_owner : Text
  pub mode : IdempotencyMode
  pub key_scope : KeyScope
  pub max_attempts : ℕ
  pub backoff : RetryBackoff
  pub cancellation_support : CancellationSupport
  pub reconciliation_support : ReconciliationSupport

abbrev pub default_dispatch_descriptor : CapabilityContract → DispatchDescriptor
default_dispatch_descriptor contract = record {
  contract_version = 0;
  module_owner = contract.module_owner;
  mode = IdempotencyMode.unknown;
  key_scope = KeyScope.no_key;
  max_attempts = 0;
  backoff = RetryBackoff.none;
  cancellation_support = CancellationSupport.unsupported;
  reconciliation_support = ReconciliationSupport.none;
}

abbrev pub candidate_of : Mission → PlanRevision → PlanCandidate
candidate_of mission revision = record {
  plan_id = revision.plan_id;
  mission_id = mission.mission_id;
  planner_note = revision.reason;
  steps = revision.steps;
  proposed_acceptance_criteria = none;
  proposed_constraints = none;
}

abbrev pub is_granted : Option ApprovalRequirement → Bool
is_granted none = false
is_granted (some r) = r.granted

abbrev pub approval_granted : Mission → PlanStep → Bool
approval_granted mission step = elim step.approval_requirement [
  | none ↦ true
  | some req ↦ is_granted (
      find? (λ (r : ApprovalRequirement). r.approval_id == req.approval_id)
        mission.approval_requirements)
]

abbrev invocation_key : KeyScope → (invocation_id fingerprint : Text) → Option Text
invocation_key KeyScope.request id fingerprint = some id
invocation_key KeyScope.effect id fingerprint = some fingerprint
invocation_key KeyScope.no_key id fingerprint = none

-- `!mission.currentPlanRevisionId`: an id that is missing or empty stands for no plan.
unfoldable pub accepted_plan : Option Text → Option Text
accepted_plan none = none
accepted_plan (some []) = none
accepted_plan (some (c ∷ cs)) = some (c ∷ cs)

module _ (env : Services) where
  -- What the typed descriptor leaves to check; its texts hold no raw secret.
  unfoldable pub validate_dispatch_descriptor :
      DispatchDescriptor → Result EngineError DispatchDescriptor
  validate_dispatch_descriptor d =
      reject_if (env.contains_raw_secret d.module_owner) EngineError.raw_secret
      >> reject_if (ltb max_safe_integer d.contract_version || nat_beq d.contract_version 0)
          EngineError.bad_descriptor
      >> reject_if (all is_white d.module_owner) EngineError.bad_descriptor
      >> reject_if (ltb max_safe_integer d.max_attempts) EngineError.bad_descriptor
      >> ok d

  -- The gates behind the step that was found.
  unfoldable pub authorize_step :
      Mission → PlanRevision → PlanStep → Result EngineError CapabilityContract
  authorize_step mission revision step =
      reject_if (not (approval_granted mission step)) EngineError.approval_not_granted
      >> elim (env.resolve step.capability_requirement) [
        | none ↦ err EngineError.capability_gone
        | some contract ↦
            reject_if
              (not (validate env.digest env.resolve mission (candidate_of mission revision)).valid)
              EngineError.plan_not_authorized
            >> ok contract
      ]

  -- All gates. `get_plan_revision` is the store's; an empty id is no accepted plan.
  unfoldable pub authorize :
      (get_plan_revision : Text → Option PlanRevision)
      → Mission
      → (step_id : Text) → Result EngineError (PlanStep × CapabilityContract)
  unfolding accepted_plan
  authorize get_plan_revision mission step_id =
      reject_if
        (not (state_is mission.state MissionState.ready)
          && not (state_is mission.state MissionState.executing))
        EngineError.dispatch_state
      >> elim (accepted_plan mission.current_plan_revision_id) [
        | none ↦ err EngineError.no_accepted_plan
        | some revision_id ↦ elim (get_plan_revision revision_id) [
          | none ↦ err EngineError.revision_not_found
          | some r ↦ elim (find? (λ (s : PlanStep). s.step_id == step_id) r.steps) [
            | none ↦ err EngineError.step_not_found
            | some step ↦ authorize_step mission r step >>= λ contract. ok (step, contract)
          ]
        ]
      ]

  unfoldable pub dispatched_row :
      Mission
      → PlanRevision
      → PlanStep
      → DispatchDescriptor
      → (invocation_id correlation_id : Text) → CapabilityInvocation
  dispatched_row mission revision step d invocation_id correlation_id =
      let fingerprint = step_fingerprint env.digest step in
      record {
        invocation_id = invocation_id;
        mission_id = mission.mission_id;
        step_id = step.step_id;
        capability_id = step.capability_requirement;
        status = InvocationStatus.dispatched;
        dispatched_at = none;
        completed_at = none;
        result_refs = [];
        owner_verification = none;
        error = none;
        plan_revision_id = revision.revision_id;
        contract_version = d.contract_version;
        module_owner = d.module_owner;
        effect_class = some step.effect_class;
        request_id = invocation_id;
        effect_fingerprint = fingerprint;
        input_refs = step.input_refs;
        idempotency = record {
          mode = d.mode;
          key = invocation_key d.key_scope invocation_id fingerprint;
        };
        retry = record {
          max_attempts = d.max_attempts;
          attempt = 0;
          backoff = d.backoff;
          backoff_ms = 0;
          next_eligible_at = none;
        };
        attempts =
            record {
              attempt = 0;
              correlation_id = correlation_id;
              state = AttemptState.prepared;
              started_at = env.now;
              finished_at = none;
              error = none;
            }
            ∷ [];
        delivery = no_delivery;
        cancellation = record {
          support = d.cancellation_support;
          requested = false;
          requested_at = none;
          requested_by = none;
          state = CancellationState.not_requested;
          reason = none;
        };
        reconciliation = record {
          support = d.reconciliation_support;
          state = ReconciliationState.not_required;
          last_checked_at = none;
          outcome = none;
          next_action = none;
        };
        owner_verification_state = OwnerVerificationState.pending;
        created_at = env.now;
        updated_at = env.now;
      }
