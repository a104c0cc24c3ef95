-- ===== src/Mission/Tests.antt =====
-- The theorems on plans and dispatches at a small Mission.
mod Rows
mod Missions
mod Scheduling
use ouroboros_runtime.Base.{
  ℕ, suc, ◌≤◌, Bool, true, false, ◌≡◌, ◌≢◌, refl, ◌↔◌, ◌⊎◌, Option, none, some, List, [], ◌∷◌, ◌++◌,
  All, all, length, Result, ok, ◌>>=◌, if◌then◌else◌, ◌==◌,
}
use ouroboros_runtime.Base.Text.{Text, text_beq, text_eq}
use ouroboros_runtime.Mission.Contracts.{
  Mission, MissionState, PlanRevision, CapabilityInvocation, InvocationStatus, DeliveryState,
  is_status_terminal, is_invocation_update_allowed, is_invocation_terminal, is_terminal, state_is,
  rejects,
}
use ouroboros_runtime.Mission.Policy.Graph.{
  has_cycle, search_steps, visit, visit_all, visit_roots, deps_of, remove, unknown_references,
  unknown_from, unknown_in,
}
use ouroboros_runtime.Mission.Policy.Decision.{
  same_string_list, same_elements, compute_effect_fingerprint, reject, build,
}
use ouroboros_runtime.Mission.Policy.Validate.{
  validate, validate_input_ref, validate_input_refs, validate_module_ownership, has_grant_fields,
  step_fingerprint, scope_ok, validate_approval, validate_known_step, validate_step, validate_steps,
  is_mutation, validate_plan,
}
use ouroboros_runtime.Mission.Policy.Spec.{PlanAllowed}
use ouroboros_runtime.Mission.Policy.Spec.Plans.{validate_iff}
use ouroboros_runtime.Mission.Engine.Dispatch.{authorize, authorize_step, accepted_plan}
use ouroboros_runtime.Mission.Engine.Dispatch.Correct.{
  IsAuthorized, authorize-IsAuthorized, dispatched_row-IsSound,
}
use ouroboros_runtime.Mission.Samples.{
  mission, revision, step, contract, services, candidate, step_name, first_row, descriptor,
}
use ouroboros_runtime.Base.{contains}

-- A store with one revision.
abbrev get_plan_revision : Text → Option PlanRevision
get_plan_revision id = if id == 82 ∷ [] then some revision else none

authorized : authorize services get_plan_revision mission step_name ≡ ok (step, contract)
unfolding authorize accepted_plan authorize_step validate validate_input_refs
    validate_module_ownership has_grant_fields step_fingerprint scope_ok validate_approval
    validate_known_step validate_step validate_steps is_mutation validate_plan has_cycle
    search_steps visit visit_all visit_roots deps_of remove unknown_references unknown_from
    unknown_in text_beq contains compute_effect_fingerprint reject build
authorized = refl

authorize-IsAuthorized_example :
    IsAuthorized services get_plan_revision mission step_name step contract
authorize-IsAuthorized_example =
    authorize-IsAuthorized services get_plan_revision mission step_name authorized

validate_iff_example :
    ((validate services.digest services.resolve mission candidate).valid ≡ true)
    ↔ PlanAllowed services.digest services.resolve mission candidate
validate_iff_example = validate_iff services.digest services.resolve mission candidate
