-- ===== src/Mission/Policy/Validate.antt =====
-- PlanPolicyValidator of cli/src/mission/policy.ts. `digest` is the hash behind a fingerprint and
-- `resolver` the capability catalog, which answers alike throughout a validation.
use ouroboros_runtime.Base.{
  Bool, false, not, ◌&&◌, ◌||◌, Option, none, some, List, [], ◌∷◌, is_empty, is_some, any, contains,
  find?, if◌then◌else◌, ◌==◌,
}
use ouroboros_runtime.Base.Text.{Text, text, text_eq, starts_with, includes}
use ouroboros_runtime.Mission.Contracts.{
  Mission, PlanCandidate, PlanStep, CapabilityContract, PolicyDecision, PolicyRejectionCode,
  ApprovalRequirement, StepApprovalRequirement, EffectFingerprintInput, effect_class_eq,
}
use ouroboros_runtime.Mission.Policy.Graph.{has_cycle, unknown_references}
use ouroboros_runtime.Mission.Policy.Decision.{
  Codes, reject, reject_when, build, same_string_list, compute_effect_fingerprint,
}
use ouroboros_runtime.Mission.Policy.Refs.{has_bypass_marker, private_owner}

-- `inputRef.includes("storage://") || inputRef.includes("db://")`
unfoldable pub is_storage_ref : Text → Bool
is_storage_ref ref = includes ref (text "storage://") || includes ref (text "db://")

-- `prefixes.some((p) => inputRef.startsWith(p))`
unfoldable pub in_prefixes : List Text → Text → Bool
in_prefixes prefixes ref = any (λ p. starts_with ref p) prefixes

-- The body of the loop of validateInputRefs.
unfoldable pub validate_input_ref : Mission → CapabilityContract → Text → Codes → Codes
validate_input_ref mission contract ref codes =
    let in_mission = in_prefixes mission.allowed_capability_scope.allowed_ref_prefixes ref in
    let in_contract = in_prefixes contract.allowed_input_ref_prefixes ref in
    if is_storage_ref ref
    then reject_when (not in_mission) PolicyRejectionCode.storage_access_denied
        (reject_when (not in_contract) PolicyRejectionCode.storage_access_denied codes)
    else reject_when (not in_contract && not (is_empty contract.allowed_input_ref_prefixes))
        PolicyRejectionCode.input_incompatible
        (reject_when (not in_mission) PolicyRejectionCode.input_incompatible codes)

unfoldable pub validate_input_refs : Mission → CapabilityContract → List Text → Codes → Codes
validate_input_refs mission contract [] codes = codes
validate_input_refs mission contract (r ∷ rs) codes =
    validate_input_refs mission contract rs (validate_input_ref mission contract r codes)

-- The body of the loop of validateModuleOwnership.
unfoldable pub validate_ownership : CapabilityContract → Text → Codes → Codes
validate_ownership contract ref codes =
    let bypass =
      reject_when (has_bypass_marker ref) PolicyRejectionCode.module_owner_bypass codes in
    elim (private_owner ref) [
      | none ↦ bypass
      | some owner ↦
          reject_when (not (owner == contract.module_owner)) PolicyRejectionCode.module_owner_bypass
            bypass
    ]

unfoldable pub validate_module_ownership : CapabilityContract → List Text → Codes → Codes
validate_module_ownership contract [] codes = codes
validate_module_ownership contract (r ∷ rs) codes =
    validate_module_ownership contract rs (validate_ownership contract r codes)

-- Whether the raw requirement carries a field that only a grant has.
unfoldable pub has_grant_fields : StepApprovalRequirement → Bool
has_grant_fields req = is_some req.granted || is_some req.granted_by || is_some req.granted_at

module _ (digest : EffectFingerprintInput → Text) where
  unfoldable pub step_fingerprint : PlanStep → Text
  step_fingerprint step = compute_effect_fingerprint digest (record {
    capability_id = step.capability_requirement;
    effect_class = step.effect_class;
    input_refs = step.input_refs;
    outcome = step.desired_outcome;
  })

  -- `scopeOk`: the requirement was made for exactly the effect of this step.
  unfoldable pub scope_ok : ApprovalRequirement → PlanStep → Bool
  scope_ok req step =
      req.scope_descriptor.capability_id == step.capability_requirement
      && req.scope_descriptor.effect_class == step.effect_class
      && req.scope_descriptor.effect_fingerprint == step_fingerprint step

  -- The two checks of an attached approval requirement. An empty id is falsy.
  unfoldable pub validate_approval : Mission → PlanStep → StepApprovalRequirement → Codes → Codes
  validate_approval mission step req codes =
      let checked =
        reject_when (has_grant_fields req) PolicyRejectionCode.approval_grant_forbidden codes in
      if is_empty req.approval_id
      then checked
      else elim (find? (λ r. r.approval_id == req.approval_id) mission.approval_requirements) [
        | none ↦ checked
        | some existing ↦
            reject_when (not (scope_ok existing step)) PolicyRejectionCode.approval_scope_mismatch
              checked
      ]

  -- validateStep, from where the contract of the capability is known.
  unfoldable pub validate_known_step : Mission → PlanStep → CapabilityContract → Codes → Codes
  validate_known_step mission step contract codes =
      let allowed =
        reject_when
          (not (contains step.effect_class mission.allowed_capability_scope.allowed_effect_classes))
          PolicyRejectionCode.effect_not_authorized codes in
      let cataloged =
        reject_when (not (contract.effect_class == step.effect_class))
          PolicyRejectionCode.effect_not_authorized allowed in
      let approved : Codes = elim step.approval_requirement [
        | none ↦
            reject_when contract.requires_approval PolicyRejectionCode.approval_missing cataloged
        | some req ↦ validate_approval mission step req cataloged
      ] in
      validate_module_ownership contract step.input_refs
        (validate_input_refs mission contract step.input_refs approved)

  module _ (resolver : Text → Option CapabilityContract) where
    unfoldable pub validate_step : Mission → PlanStep → Codes → Codes
    validate_step mission step codes =
        if contains step.capability_requirement mission.allowed_capability_scope.capability_ids
        then elim (resolver step.capability_requirement) [
          | none ↦ reject PolicyRejectionCode.capability_unknown codes
          | some contract ↦ validate_known_step mission step contract codes
        ]
        else reject PolicyRejectionCode.capability_not_authorized codes

    unfoldable pub validate_steps : Mission → List PlanStep → Codes → Codes
    validate_steps mission [] codes = codes
    validate_steps mission (s ∷ ss) codes =
        validate_steps mission ss (validate_step mission s codes)

    -- A proposed list that differs from the one of the Mission.
    unfoldable pub is_mutation : Option (List Text) → List Text → Bool
    is_mutation none own = false
    is_mutation (some proposed) own = not (same_string_list proposed own)

    -- The checks behind the two early returns.
    unfoldable pub validate_plan : Mission → PlanCandidate → Codes
    validate_plan mission candidate =
        let acceptance =
          reject_when
            (is_mutation candidate.proposed_acceptance_criteria mission.acceptance_criteria)
            PolicyRejectionCode.acceptance_mutation [] in
        let constraints =
          reject_when (is_mutation candidate.proposed_constraints mission.constraints)
            PolicyRejectionCode.constraint_mutation acceptance in
        let cycles =
          reject_when (has_cycle candidate.steps) PolicyRejectionCode.dependency_cycle
            constraints in
        let references =
          reject_when (not (is_empty (unknown_references candidate.steps)))
            PolicyRejectionCode.unknown_step_reference cycles in
        validate_steps mission candidate.steps references

    unfoldable pub validate : Mission → PlanCandidate → PolicyDecision
    validate mission candidate =
        if candidate.mission_id == mission.mission_id
        then if is_empty candidate.steps
          then build (reject PolicyRejectionCode.empty_plan [])
          else build (validate_plan mission candidate)
        else build (reject PolicyRejectionCode.mission_id_mismatch [])
