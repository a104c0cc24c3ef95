-- ===== src/Mission/Engine/Lifecycle/Steps.antt =====
-- The Missions in time: a step for each operation of cli/src/mission/mission-engine.ts that changes the
-- state of a Mission.
use ouroboros_runtime.Base.{Bool, false, ◌≡◌, Option, List, Result, ok, ◌>>◌, reject_if, arith}
use ouroboros_runtime.Base.Text.{Text}
use ouroboros_runtime.Mission.Contracts.{
  Mission, MissionState, CapabilityInvocation, PlanRevision, is_terminal,
}
use ouroboros_runtime.Mission.Engine.Services.{Services, CriterionClaim, EngineError}
use ouroboros_runtime.Mission.Engine.Lifecycle.{
  set_waiting, block_mission, fail_mission, cancel_mission, pause_mission, resume_mission,
  restore_waiting_to_ready, complete_mission, record_criterion_verification,
}
use ouroboros_runtime.Mission.Engine.Approvals.{accept_plan, record_approval}

pub data MissionStep (mission next : Mission) : Type 0 where
  by_plan :
      (env : Services) (revision : PlanRevision)
      → accept_plan env mission revision ≡ ok next
      → MissionStep mission next
  by_approval :
      (env : Services) (approval_id granted_by : Text)
      → record_approval env mission approval_id granted_by ≡ ok next
      → MissionStep mission next
  by_waiting :
      (env : Services) (state : MissionState) (question : Option Text)
      → set_waiting env mission state question ≡ ok next
      → MissionStep mission next
  by_block :
      (env : Services) (reason : Text)
      → block_mission env mission reason ≡ ok next
      → MissionStep mission next
  by_failure :
      (env : Services) (reason : Text)
      → fail_mission env mission reason ≡ ok next
      → MissionStep mission next
  by_cancel :
      (env : Services) (reason : Text)
      → cancel_mission env mission reason ≡ ok next
      → MissionStep mission next
  by_pause :
      (env : Services) (reason : Text) (paused_by : Option Text)
      → pause_mission env mission reason paused_by ≡ ok next
      → MissionStep mission next
  by_resume : (env : Services) → resume_mission env mission ≡ ok next → MissionStep mission next
  by_restore :
      (env : Services) → restore_waiting_to_ready env mission ≡ ok next → MissionStep mission next
  by_completion :
      (env : Services) (invocations : List CapabilityInvocation)
      → complete_mission env mission invocations ≡ ok next
      → MissionStep mission next
  by_criterion :
      (env : Services) (claim : CriterionClaim)
      → record_criterion_verification env mission claim ≡ ok next
      → MissionStep mission next

-- A guarded chain that returns a Mission passed its first guard.
guarded :
    (b : Bool) (e : EngineError) (k : Result EngineError Mission) {x : Mission}
    → (reject_if b e >> k) ≡ ok x
    → b ≡ false
guarded b e k h = ground arith

-- No operation on the state of a Mission succeeds once it is completed, failed for good or cancelled.
pub step-is_terminal :
    {mission next : Mission} → MissionStep mission next → is_terminal mission.state ≡ false
unfolding accept_plan record_approval set_waiting block_mission fail_mission cancel_mission
    pause_mission resume_mission restore_waiting_to_ready complete_mission
    record_criterion_verification
step-is_terminal (MissionStep.by_plan env revision h) = ground arith
step-is_terminal (MissionStep.by_approval env approval_id granted_by h) = ground arith
step-is_terminal (MissionStep.by_waiting env state question h) = ground arith
step-is_terminal (MissionStep.by_block env reason h) = ground arith
step-is_terminal (MissionStep.by_failure env reason h) = ground arith
step-is_terminal (MissionStep.by_cancel env reason h) = ground arith
step-is_terminal (MissionStep.by_pause env reason paused_by h) = ground arith
step-is_terminal (MissionStep.by_resume env h) = ground arith
step-is_terminal (MissionStep.by_restore env h) = ground arith
step-is_terminal (MissionStep.by_completion env invocations h) = ground arith
step-is_terminal (MissionStep.by_criterion env claim h) = ground arith
