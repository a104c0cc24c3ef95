-- ===== src/Mission/Policy/Spec.antt =====
-- What a valid plan is, stated without the validator of Mission/Policy/Validate.antt.
pub mod Steps
pub mod Approvals
pub mod Plans
use ouroboros_runtime.Base.{
  Bool, true, false, ◌||◌, ◌≡◌, ◌≢◌, ◌⊎◌, Option, none, some, List, [], ◌∷◌, ◌++◌, All, In, find?,
  ◌==◌,
}
use mathlib.Core.List.{Perm}
use ouroboros_runtime.Base.Text.{Text, text_eq}
use ouroboros_runtime.Mission.Contracts.{
  Mission, PlanCandidate, PlanStep, CapabilityContract, StepApprovalRequirement,
  ApprovalRequirement, EffectFingerprintInput,
}
use ouroboros_runtime.Mission.Policy.Refs.{has_bypass_marker, private_owner}
use ouroboros_runtime.Mission.Policy.Graph.Order.{HasCycle}
use ouroboros_runtime.Mission.Policy.Graph.Laws.{AllKnown}
use ouroboros_runtime.Mission.Policy.Validate.{is_storage_ref, step_fingerprint, has_grant_fields}

-- One of the prefixes stands at the start of the reference.
abbrev pub IsWithin : List Text → Text → Type 0
IsWithin prefixes ref = (p : Text) × In p prefixes × ((r : Text) × (ref ≡ p ++ r))

-- A reference lies within the prefixes of the Mission, and within those of the capability where
-- these are declared or the reference names a storage.
pub record RefAllowed (mission : Mission) (contract : CapabilityContract) (ref : Text)
    : Type 0 where
  pub in_mission : IsWithin mission.allowed_capability_scope.allowed_ref_prefixes ref
  pub in_contract :
      (is_storage_ref ref ≡ true) ⊎ (contract.allowed_input_ref_prefixes ≢ [])
      → IsWithin contract.allowed_input_ref_prefixes ref

-- A reference bypasses no module owner.
pub record OwnerAllowed (contract : CapabilityContract) (ref : Text) : Type 0 where
  pub no_bypass : has_bypass_marker ref ≡ false
  pub own_area : (owner : Text) → private_owner ref ≡ some owner → owner ≡ contract.module_owner

module _ (digest : EffectFingerprintInput → Text) where
  -- A requirement was made for the effect of a step.
  pub record ScopeMatches (req : ApprovalRequirement) (step : PlanStep) : Type 0 where
    pub same_capability : req.scope_descriptor.capability_id ≡ step.capability_requirement
    pub same_effect : req.scope_descriptor.effect_class ≡ step.effect_class
    pub same_fingerprint : req.scope_descriptor.effect_fingerprint ≡ step_fingerprint digest step

  -- An attached requirement grants nothing, and refers to no requirement of another effect.
  pub record ApprovalAllowed (mission : Mission) (step : PlanStep) (req : StepApprovalRequirement)
      : Type 0 where
    pub no_grant : has_grant_fields req ≡ false
    pub same_scope :
        (existing : ApprovalRequirement)
        → req.approval_id ≢ []
        → find? (λ r. r.approval_id == req.approval_id) mission.approval_requirements
          ≡ some existing
        → ScopeMatches existing step

  abbrev pub Approved :
      Mission → PlanStep → CapabilityContract → Option StepApprovalRequirement → Type 0
  Approved mission step contract none = contract.requires_approval ≡ false
  Approved mission step contract (some req) = ApprovalAllowed mission step req

  pub record KnownStepAllowed (mission : Mission) (step : PlanStep) (contract : CapabilityContract)
      : Type 0 where
    pub effect_allowed :
        In step.effect_class mission.allowed_capability_scope.allowed_effect_classes
    pub effect_cataloged : contract.effect_class ≡ step.effect_class
    pub approved : Approved mission step contract step.approval_requirement
    pub refs : All (RefAllowed mission contract) step.input_refs
    pub owners : All (OwnerAllowed contract) step.input_refs

  module _ (resolver : Text → Option CapabilityContract) where
    pub record StepAllowed (mission : Mission) (step : PlanStep) : Type 0 where
      pub in_scope : In step.capability_requirement mission.allowed_capability_scope.capability_ids
      pub contract : CapabilityContract
      pub known : resolver step.capability_requirement ≡ some contract
      pub allowed : KnownStepAllowed mission step contract

    -- A proposed list is a reordering of the Mission's own.
    abbrev pub Unchanged : Option (List Text) → List Text → Type 0
    Unchanged none own = Unit
    Unchanged (some proposed) own = Perm proposed own

    pub record PlanAllowed (mission : Mission) (candidate : PlanCandidate) : Type 0 where
      pub same_mission : candidate.mission_id ≡ mission.mission_id
      pub some_step : candidate.steps ≢ []
      pub same_acceptance :
          Unchanged candidate.proposed_acceptance_criteria mission.acceptance_criteria
      pub same_constraints : Unchanged candidate.proposed_constraints mission.constraints
      pub acyclic : ¬ HasCycle candidate.steps
      pub closed : AllKnown candidate.steps candidate.steps
      pub steps_allowed : All (StepAllowed mission) candidate.steps
