-- ===== src/Mission/Contracts/Plan.antt =====
-- The plan, the Mission and the capability contract of cli/src/mission/contracts.ts.
use ouroboros_runtime.Base.{ℕ, Bool, Option, List}
use ouroboros_runtime.Base.Text.{Text}
use ouroboros_runtime.Mission.Contracts.States.{
  MissionState, EffectClass, IntentSource, PlanRevisionStatus,
}
use ouroboros_runtime.Mission.Contracts.Invocation.{EvidenceRef}

pub record ContextReference : Type 0 where
  pub ref_id : Text
  pub owner : Text
  pub label : Text
  pub external_ref : Text
  pub authorized_by : Text

pub record BudgetPolicy : Type 0 where
  pub max_invocations : Option ℕ
  pub max_duration_ms : Option ℕ
  pub budget_units : Option ℕ

pub record ScopeDescriptor : Type 0 where
  pub capability_id : Text
  pub effect_class : EffectClass
  pub effect_fingerprint : Text

pub record ApprovalRequirement : Type 0 where
  pub approval_id : Text
  pub scope_descriptor : ScopeDescriptor
  pub approver : Text
  pub reason : Text
  pub granted : Bool
  pub granted_by : Option Text
  pub granted_at : Option ℕ

pub record AllowedCapabilityScope : Type 0 where
  pub capability_ids : List Text
  pub allowed_effect_classes : List EffectClass
  pub allowed_ref_prefixes : List Text

pub record EffectFingerprintInput : Type 0 where
  pub capability_id : Text
  pub effect_class : EffectClass
  pub input_refs : List Text
  pub outcome : Text

-- The declared fields, and the three grant fields that the policy looks for on the raw object.
pub record StepApprovalRequirement : Type 0 where
  pub approval_id : Text
  pub approver : Text
  pub reason : Text
  pub granted : Option Bool
  pub granted_by : Option Text
  pub granted_at : Option ℕ

pub record Fallback : Type 0 where
  pub capability_requirement : Text
  pub reason : Text

pub record BudgetHint : Type 0 where
  pub units : Option ℕ
  pub max_duration_ms : Option ℕ

pub record PlanStep : Type 0 where
  pub step_id : Text
  pub desired_outcome : Text
  pub dependency_ids : List Text
  pub capability_requirement : Text
  pub input_refs : List Text
  pub expected_acceptance : List Text
  pub effect_class : EffectClass
  pub approval_requirement : Option StepApprovalRequirement
  pub budget_hint : Option BudgetHint
  pub fallbacks : Option (List Fallback)

pub record PlanCandidate : Type 0 where
  pub plan_id : Text
  pub mission_id : Text
  pub planner_note : Text
  pub steps : List PlanStep
  pub proposed_acceptance_criteria : Option (List Text)
  pub proposed_constraints : Option (List Text)

pub record PlanRevision : Type 0 where
  pub revision_id : Text
  pub revision_number : ℕ
  pub plan_id : Text
  pub mission_id : Text
  pub steps : List PlanStep
  pub status : PlanRevisionStatus
  pub reason : Text
  pub accepted_at : Option ℕ
  pub replaces_revision_id : Option Text
  pub rejection_reason : Option Text
  pub created_at : ℕ

pub record CriterionVerification : Type 0 where
  pub criterion_id : Text
  pub satisfied : Bool
  pub source : Text
  pub verified_at : ℕ
  pub evidence_ref_id : Option Text

pub record MissionPauseMetadata : Type 0 where
  pub previous_state : MissionState
  pub reason : Text
  pub paused_at : ℕ
  pub paused_by : Option Text

pub record AccountingOutcome : Type 0 where
  pub state : MissionState
  pub verified : Bool
  pub owner_blocked : Bool
  pub verified_criteria : ℕ

-- The two fields of the context accounting that the Mission engine writes; the counters beside
-- them belong to the context compiler.
pub record MissionContextAccounting : Type 0 where
  pub outcome : AccountingOutcome
  pub updated_at : ℕ

pub record RecoveryMetadata : Type 0 where
  pub recovered : Bool
  pub recovery_count : ℕ
  pub last_recovered_at : Option ℕ

-- `invocationRefs` is no field: the store derives it from the invocation rows when it reads.
pub record Mission : Type 0 where
  pub mission_id : Text
  pub schema_version : ℕ
  pub source : IntentSource
  pub original_intent : Text
  pub sanitized_original_intent : Text
  pub original_intent_ref : Text
  pub interpreted_objective : Text
  pub constraints : List Text
  pub acceptance_criteria : List Text
  pub budget_policy : BudgetPolicy
  pub allowed_capability_scope : AllowedCapabilityScope
  pub approval_requirements : List ApprovalRequirement
  pub context_refs : List ContextReference
  pub state : MissionState
  pub current_plan_revision_id : Option Text
  pub evidence_refs : List EvidenceRef
  pub context_accounting : Option MissionContextAccounting
  pub criterion_verifications : List CriterionVerification
  pub unresolved_questions : List Text
  pub created_at : ℕ
  pub updated_at : ℕ
  pub recovery_metadata : RecoveryMetadata
  pub pause_metadata : Option MissionPauseMetadata

pub data PolicyRejectionCode : Type 0 where
  capability_not_authorized capability_unknown dependency_cycle effect_not_authorized
        approval_missing approval_grant_forbidden approval_scope_mismatch input_incompatible
        acceptance_mutation constraint_mutation storage_access_denied module_owner_bypass empty_plan
        unknown_step_reference mission_id_mismatch :
      PolicyRejectionCode

-- The sanitized reasons, a text for each code, are not modelled.
pub record PolicyDecision : Type 0 where
  pub valid : Bool
  pub codes : List PolicyRejectionCode

pub record CapabilityContract : Type 0 where
  pub capability_id : Text
  pub module_owner : Text
  pub effect_class : EffectClass
  pub requires_approval : Bool
  pub requires_owner_verification : Bool
  pub allowed_input_ref_prefixes : List Text
  pub owns_storage : Bool
