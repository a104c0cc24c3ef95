-- ===== src/Mission/Tests/Missions.antt =====
-- The theorems on the state of a Mission, its approvals and its verification at a small Mission.
use ouroboros_runtime.Base.{
  true, false, ◌≡◌, ◌↔◌, ◌⊎◌, refl, none, some, List, [], ◌∷◌, ◌++◌, All, all, ok, contains, ◌>>=◌,
}
use ouroboros_runtime.Base.Text.{text_beq, text_eq}
use ouroboros_runtime.Mission.Contracts.{
  Mission, MissionState, ApprovalRequirement, CapabilityInvocation, is_terminal,
}
use ouroboros_runtime.Mission.Policy.Graph.{has_cycle, Search, search_steps}
use ouroboros_runtime.Mission.Policy.Graph.Order.{HasCycle}
use ouroboros_runtime.Mission.Policy.Graph.Laws.{has_cycle_iff, search_steps_total}
use ouroboros_runtime.Mission.Policy.Decision.{same_string_list, compute_effect_fingerprint}
use ouroboros_runtime.Mission.Policy.Multisets.{same_string_list_iff}
use ouroboros_runtime.Mission.Policy.Validate.{scope_ok, step_fingerprint}
use ouroboros_runtime.Mission.Engine.Services.{Services}
use ouroboros_runtime.Mission.Engine.Dispatch.{dispatched_row}
use ouroboros_runtime.Mission.Engine.Delivery.{handoff_row}
use ouroboros_runtime.Mission.Engine.Verify.{verify, trusted_owners}
use ouroboros_runtime.Mission.Engine.Verify.Correct.{IsVerified, verify_iff}
use ouroboros_runtime.Mission.Engine.Lifecycle.{complete_mission, pause_mission, resume_mission}
use ouroboros_runtime.Mission.Engine.Lifecycle.Steps.{MissionStep, step-is_terminal}
use ouroboros_runtime.Mission.Engine.Lifecycle.Laws.{
  completed-IsVerified, resume_mission-pause_mission,
}
use ouroboros_runtime.Mission.Engine.Approvals.{
  accept_plan, merge_approvals, merge_approval, merge_requirement,
}
use ouroboros_runtime.Mission.Engine.Approvals.Laws.{NotGranted, accept_plan-eq-ok}
use ouroboros_runtime.Mission.Samples.{
  mission, revision, step, services, proven_mission, completed_row, criterion,
}
use mathlib.Core.List.{Perm}

abbrev completed_mission : Mission
completed_mission = record proven_mission { state = MissionState.completed; updated_at = 1000 }

completes : MissionStep proven_mission completed_mission
unfolding complete_mission verify trusted_owners text_beq contains is_terminal handoff_row
    dispatched_row
completes = MissionStep.by_completion services (completed_row ∷ []) refl

completed-IsVerified_example :
    (env : Services) × (invocations : List CapabilityInvocation) × (complete_mission env
        proven_mission invocations
      ≡ ok completed_mission)
    × IsVerified env.resolve proven_mission invocations
completed-IsVerified_example = completed-IsVerified completes refl

verify_iff_example :
    ((verify services.resolve proven_mission (completed_row ∷ [])).satisfied ≡ true)
    ↔ IsVerified services.resolve proven_mission (completed_row ∷ [])
verify_iff_example = verify_iff services.resolve proven_mission (completed_row ∷ [])

step-is_terminal_example : is_terminal proven_mission.state ≡ false
step-is_terminal_example = step-is_terminal completes

abbrev accepted_mission : Mission
accepted_mission = record mission {
  current_plan_revision_id = some revision.revision_id;
  updated_at = 1000;
}

accepted : accept_plan services mission revision ≡ ok accepted_mission
unfolding accept_plan merge_approvals merge_approval merge_requirement text_beq scope_ok
    step_fingerprint compute_effect_fingerprint is_terminal
accepted = refl

accept_plan-eq-ok_example :
    ((added : List ApprovalRequirement) × (accepted_mission.approval_requirements
        ≡ mission.approval_requirements ++ added)
      × All NotGranted added)
    × (((accepted_mission.state ≡ MissionState.ready)
          × All
              (λ (r : ApprovalRequirement). r.granted ≡ true)
              accepted_mission.approval_requirements)
        ⊎ ((accepted_mission.state ≡ MissionState.waiting_for_approval)
            × (all (λ (r : ApprovalRequirement). r.granted) accepted_mission.approval_requirements
                ≡ false)))
accept_plan-eq-ok_example = accept_plan-eq-ok services mission revision accepted

live : is_terminal mission.state ≡ false
unfolding is_terminal
live = refl

resume_mission-pause_mission_example :
    (pause_mission services mission criterion none >>= resume_mission services)
    ≡ ok (record mission { pause_metadata = none; updated_at = 1000 })
resume_mission-pause_mission_example =
    resume_mission-pause_mission services services mission criterion none live refl

has_cycle_iff_example : (has_cycle (step ∷ []) ≡ true) ↔ HasCycle (step ∷ [])
has_cycle_iff_example = has_cycle_iff (step ∷ [])

same_string_list_iff_example :
    (same_string_list (criterion ∷ []) (criterion ∷ []) ≡ true)
    ↔ Perm (criterion ∷ []) (criterion ∷ [])
same_string_list_iff_example = same_string_list_iff (criterion ∷ []) (criterion ∷ [])

search_steps_total_example : (t : Search) × (search_steps (step ∷ []) ≡ some t)
search_steps_total_example = search_steps_total (step ∷ [])
