-- ===== src/Mission/Engine/Approvals.antt =====
-- The approvals of a Mission in cli/src/mission/mission-engine.ts: acceptPlan and recordApproval. The
-- statuses of the revisions, which acceptPlan also updates, belong to the store.
pub mod Laws
use ouroboros_runtime.Base.{
  ℕ, Bool, true, false, not, Option, none, some, List, [], ◌∷◌, ◌++◌, all, any, find?,
  if◌then◌else◌, ◌==◌, Result, ok, err, ◌>>=◌, ◌>>◌, reject_if, map, ◌&&◌,
}
use ouroboros_runtime.Base.Text.{Text, text_eq}
use ouroboros_runtime.Mission.Contracts.{
  Mission, MissionState, ApprovalRequirement, ScopeDescriptor, PlanStep, PlanRevision,
  PlanRevisionStatus, StepApprovalRequirement, is_terminal, state_is,
}
use ouroboros_runtime.Mission.Policy.Validate.{scope_ok, step_fingerprint}
use ouroboros_runtime.Mission.Engine.Services.{Services, EngineError}
use ouroboros_runtime.Mission.Engine.Lifecycle.{guard_not_terminal}

abbrev pub has_id : Text → ApprovalRequirement → Bool
has_id id r = r.approval_id == id

abbrev pub is_proposed : PlanRevisionStatus → Bool
is_proposed PlanRevisionStatus.proposed = true
is_proposed _ = false

-- The first requirement of the id is changed, in the object that the Mission holds.
abbrev pub grant_first :
    (ApprovalRequirement → ApprovalRequirement)
    → Text
    → List ApprovalRequirement
    → List ApprovalRequirement
grant_first f id [] = []
grant_first f id (r ∷ rs) =
    let rest = grant_first f id rs in if has_id id r then f r ∷ rs else r ∷ rest

module _ (env : Services) where
  -- The requirement that a step proposes, not granted, for the effect of the step.
  unfoldable pub proposed_requirement : PlanStep → StepApprovalRequirement → ApprovalRequirement
  proposed_requirement step req = record {
    approval_id = req.approval_id;
    scope_descriptor = record {
      capability_id = step.capability_requirement;
      effect_class = step.effect_class;
      effect_fingerprint = step_fingerprint env.digest step;
    };
    approver = env.sanitize_text req.approver;
    reason = env.sanitize_text req.reason;
    granted = false;
    granted_by = none;
    granted_at = none;
  }

  -- One turn of the loop over the steps, for a step with a requirement.
  unfoldable pub merge_requirement :
      List ApprovalRequirement
      → PlanStep
      → StepApprovalRequirement
      → Result EngineError (List ApprovalRequirement)
  merge_requirement approvals step req = elim (find? (has_id req.approval_id) approvals) [
    | none ↦ ok (approvals ++ proposed_requirement step req ∷ [])
    | some existing ↦
        reject_if (not (scope_ok env.digest existing step)) EngineError.approval_effect_mismatch
        >> ok approvals
  ]

  unfoldable pub merge_approval :
      List ApprovalRequirement → PlanStep → Result EngineError (List ApprovalRequirement)
  merge_approval approvals step = elim step.approval_requirement [
    | none ↦ ok approvals
    | some req ↦ merge_requirement approvals step req
  ]

  unfoldable pub merge_approvals :
      List ApprovalRequirement → List PlanStep → Result EngineError (List ApprovalRequirement)
  merge_approvals approvals [] = ok approvals
  merge_approvals approvals (s ∷ ss) =
      merge_approval approvals s >>= λ merged. merge_approvals merged ss

  unfoldable pub accept_plan : Mission → PlanRevision → Result EngineError Mission
  accept_plan mission revision =
      guard_not_terminal env mission
      >> reject_if (not (revision.mission_id == mission.mission_id))
          EngineError.revision_of_other_mission
      >> reject_if (not (is_proposed revision.status)) EngineError.revision_not_proposed
      >> (merge_approvals mission.approval_requirements revision.steps >>= λ merged.
          ok (record mission {
            current_plan_revision_id = some revision.revision_id;
            state =
                if all (λ (r : ApprovalRequirement). r.granted) merged
                then MissionState.ready
                else MissionState.waiting_for_approval;
            approval_requirements = merged;
            updated_at = env.now;
          }))

  unfoldable pub record_approval :
      Mission → (approval_id granted_by : Text) → Result EngineError Mission
  record_approval mission approval_id granted_by =
      let grant = λ (r : ApprovalRequirement). record r {
        granted = true;
        granted_by = some (env.sanitize_text granted_by);
        granted_at = some env.now;
      } in
      let approvals = grant_first grant approval_id mission.approval_requirements in
      guard_not_terminal env mission
      >> reject_if (not (any (has_id approval_id) mission.approval_requirements))
          EngineError.approval_not_found
      >> ok (record mission {
        approval_requirements = approvals;
        state =
            if all (λ (r : ApprovalRequirement). r.granted) approvals
              && state_is mission.state MissionState.waiting_for_approval
            then MissionState.ready
            else mission.state;
        updated_at = env.now;
      })
