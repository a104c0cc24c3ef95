-- ===== src/Mission/Samples.antt =====
-- A small Mission of one step, its services, and the rows of its invocation.
use ouroboros_runtime.Base.{Bool, true, false, none, some, [], ◌∷◌, if◌then◌else◌, ◌==◌}
use ouroboros_runtime.Base.Text.{Text, text_eq}
use ouroboros_runtime.Mission.Contracts.{
  Mission, MissionState, PlanStep, PlanRevision, PlanRevisionStatus, PlanCandidate,
  CapabilityContract, CapabilityInvocation, EffectClass, IntentSource, ApprovalRequirement,
  StepApprovalRequirement, OwnerVerification, DeliveryState, IdempotencyMode, RetryBackoff,
  CancellationSupport, ReconciliationSupport, InvocationResult, InvocationStatus,
}
use ouroboros_runtime.Mission.Engine.Services.{Services}
use ouroboros_runtime.Mission.Engine.Results.{result_row}
use ouroboros_runtime.Mission.Engine.Cancel.{cancelled_row}
use ouroboros_runtime.Mission.Engine.Delivery.{HandoffUpdate, handoff_row}
use ouroboros_runtime.Mission.Store.{stored_row}
use ouroboros_runtime.Mission.Engine.Dispatch.{
  DispatchDescriptor, KeyScope, dispatched_row, candidate_of,
}

abbrev pub mission_name : Text
mission_name = 77 ∷ []

abbrev pub capability_name : Text
capability_name = 67 ∷ []

abbrev pub owner_name : Text
owner_name = 79 ∷ []

abbrev pub step_name : Text
step_name = 83 ∷ []

abbrev pub approval_name : Text
approval_name = 65 ∷ []

abbrev pub criterion : Text
criterion = 81 ∷ []

abbrev pub fingerprint : Text
fingerprint = 70 ∷ []

abbrev pub contract : CapabilityContract
contract = record {
  capability_id = capability_name;
  module_owner = owner_name;
  effect_class = EffectClass.write;
  requires_approval = true;
  requires_owner_verification = true;
  allowed_input_ref_prefixes = [];
  owns_storage = false;
}

abbrev pub services : Services
services = record {
  now = 1000;
  sanitize_text = λ t. t;
  contains_raw_secret = λ _. false;
  resolve = λ id. if id == capability_name then some contract else none;
  attest_owner = λ v _ _. some v;
  attest_criterion = λ _ _. none;
  digest = λ _. fingerprint;
}

abbrev pub requirement : StepApprovalRequirement
requirement = record {
  approval_id = approval_name;
  approver = owner_name;
  reason = [];
  granted = none;
  granted_by = none;
  granted_at = none;
}

abbrev pub step : PlanStep
step = record {
  step_id = step_name;
  desired_outcome = criterion;
  dependency_ids = [];
  capability_requirement = capability_name;
  input_refs = [];
  expected_acceptance = [];
  effect_class = EffectClass.write;
  approval_requirement = some requirement;
  budget_hint = none;
  fallbacks = none;
}

abbrev pub revision : PlanRevision
revision = record {
  revision_id = 82 ∷ [];
  revision_number = 1;
  plan_id = 80 ∷ [];
  mission_id = mission_name;
  steps = step ∷ [];
  status = PlanRevisionStatus.proposed;
  reason = [];
  accepted_at = none;
  replaces_revision_id = none;
  rejection_reason = none;
  created_at = 10;
}

abbrev pub approval : ApprovalRequirement
approval = record {
  approval_id = approval_name;
  scope_descriptor = record {
    capability_id = capability_name;
    effect_class = EffectClass.write;
    effect_fingerprint = fingerprint;
  };
  approver = owner_name;
  reason = [];
  granted = true;
  granted_by = some owner_name;
  granted_at = some 20;
}

abbrev pub mission : Mission
mission = record {
  mission_id = mission_name;
  schema_version = 1;
  source = IntentSource.cli;
  original_intent = criterion;
  sanitized_original_intent = criterion;
  original_intent_ref = [];
  interpreted_objective = criterion;
  constraints = [];
  acceptance_criteria = criterion ∷ [];
  budget_policy = record { max_invocations = none; max_duration_ms = none; budget_units = none };
  allowed_capability_scope = record {
    capability_ids = capability_name ∷ [];
    allowed_effect_classes = EffectClass.write ∷ [];
    allowed_ref_prefixes = [];
  };
  approval_requirements = approval ∷ [];
  context_refs = [];
  state = MissionState.ready;
  current_plan_revision_id = some (82 ∷ []);
  evidence_refs = [];
  context_accounting = none;
  criterion_verifications = [];
  unresolved_questions = [];
  created_at = 1;
  updated_at = 1;
  recovery_metadata = record { recovered = false; recovery_count = 0; last_recovered_at = none };
  pause_metadata = none;
}

abbrev pub candidate : PlanCandidate
candidate = candidate_of mission revision

abbrev pub descriptor : DispatchDescriptor
descriptor = record {
  contract_version = 1;
  module_owner = owner_name;
  mode = IdempotencyMode.idempotent;
  key_scope = KeyScope.effect;
  max_attempts = 3;
  backoff = RetryBackoff.fixed;
  cancellation_support = CancellationSupport.hard;
  reconciliation_support = ReconciliationSupport.status_replay;
}

abbrev pub first_row : CapabilityInvocation
first_row = dispatched_row services mission revision step descriptor (73 ∷ []) (88 ∷ [])

abbrev pub verdict : Bool → OwnerVerification
verdict verified = record {
  invocation_id = 73 ∷ [];
  verified = verified;
  reason = [];
  owner = owner_name;
  verified_at = 900;
}

-- A result, before which the invocation was handed over or not.
abbrev pub result : InvocationStatus → InvocationResult
result status = record {
  invocation_id = 73 ∷ [];
  status = status;
  summary = [];
  evidence_refs = [];
  completed_at = some 950;
}

abbrev pub handoff : DeliveryState → HandoffUpdate
handoff state = record {
  delivery_state = some state;
  remote_operation_handle = none;
  correlation_id = none;
}

-- The row of an invocation that was handed over, and what the store makes of it.
abbrev pub handed_row : CapabilityInvocation
handed_row =
    handoff_row services first_row DeliveryState.submitted (handoff DeliveryState.submitted)

abbrev pub saved_row : CapabilityInvocation
saved_row = stored_row first_row handed_row

-- The row after a failure, and after a cancellation before the handoff.
abbrev pub failed_row : CapabilityInvocation
failed_row =
    result_row services saved_row (result InvocationStatus.failed) InvocationStatus.failed none []

abbrev pub stopped_row : CapabilityInvocation
stopped_row = cancelled_row services first_row [] none

-- A row whose owner has rejected it, and one whose owner has verified that it is complete.
abbrev pub rejected_row : CapabilityInvocation
rejected_row = record saved_row { owner_verification = some (verdict false) }

abbrev pub completed_row : CapabilityInvocation
completed_row = record saved_row {
  status = InvocationStatus.completed;
  owner_verification = some (verdict true);
}

abbrev pub proven_mission : Mission
proven_mission = record mission {
  state = MissionState.executing;
  criterion_verifications =
      record {
        criterion_id = criterion;
        satisfied = true;
        source = owner_name;
        verified_at = 960;
        evidence_ref_id = none;
      }
      ∷ [];
}
