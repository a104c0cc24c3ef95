-- ===== src/Mission/Engine/Lifecycle/Laws.antt =====
-- How a Mission of cli/src/mission/mission-engine.ts comes to be completed, and what a pause keeps.
use ouroboros_runtime.Base.{false, ◌≡◌, refl, Option, none, ◌>>=◌, List, ok, inl, inr, arith}
use ouroboros_runtime.Base.Text.{Text}
use ouroboros_runtime.Mission.Contracts.{
  Mission, MissionState, CapabilityInvocation, is_terminal, is_waiting, state_is,
}
use ouroboros_runtime.Mission.Engine.Services.{Services}
use ouroboros_runtime.Mission.Engine.Verify.Correct.{IsVerified, verify_iff}
use ouroboros_runtime.Mission.Engine.Lifecycle.{
  set_waiting, block_mission, fail_mission, cancel_mission, pause_mission, resume_mission,
  restore_waiting_to_ready, complete_mission, record_criterion_verification,
}
use ouroboros_runtime.Mission.Engine.Approvals.{record_approval}
use ouroboros_runtime.Mission.Engine.Approvals.Laws.{accept_plan-eq-ok}
use ouroboros_runtime.Mission.Engine.Lifecycle.Steps.{MissionStep}

complete_mission-IsVerified :
    (env : Services) (mission : Mission) (invocations : List CapabilityInvocation) {next : Mission}
    → complete_mission env mission invocations ≡ ok next
    → IsVerified env.resolve mission invocations
unfolding complete_mission
complete_mission-IsVerified env mission invocations h =
    (verify_iff env.resolve mission invocations).0 (ground arith)

-- A step that leaves a Mission completed is a call of completeMission, and the Mission was verified with
-- the invocations of that call: every other step leaves another state.
pub completed-IsVerified :
    {mission next : Mission}
    → MissionStep mission next
    → next.state ≡ MissionState.completed
    → (env : Services) × (invocations : List CapabilityInvocation) × (complete_mission env mission
          invocations
        ≡ ok next)
      × IsVerified env.resolve mission invocations
unfolding record_approval set_waiting block_mission fail_mission cancel_mission pause_mission
    resume_mission restore_waiting_to_ready record_criterion_verification is_terminal is_waiting
completed-IsVerified (MissionStep.by_completion env invocations h) c =
    (env, invocations, h, complete_mission-IsVerified env _ invocations h)
completed-IsVerified {mission} (MissionStep.by_plan env revision h) c =
    let (_, states) = accept_plan-eq-ok env mission revision h in
    absurd (elim states [ inl r ↦ let s = r.0 in cc (s, c) | inr w ↦ let s = w.0 in cc (s, c) ])
completed-IsVerified (MissionStep.by_approval env approval_id granted_by h) c =
    absurd (ground arith)
completed-IsVerified (MissionStep.by_waiting env state question h) c = absurd (ground arith)
completed-IsVerified (MissionStep.by_block env reason h) c = absurd (ground arith)
completed-IsVerified (MissionStep.by_failure env reason h) c = absurd (ground arith)
completed-IsVerified (MissionStep.by_cancel env reason h) c = absurd (ground arith)
completed-IsVerified (MissionStep.by_pause env reason paused_by h) c = absurd (ground arith)
completed-IsVerified (MissionStep.by_resume env h) c = absurd (ground arith)
completed-IsVerified (MissionStep.by_restore env h) c = absurd (ground arith)
completed-IsVerified (MissionStep.by_criterion env claim h) c = absurd (ground arith)

-- Resuming a Mission that was paused in a state that is neither paused nor terminal gives back the
-- Mission as it was, without its pause metadata and with the time of the resumption.
pub resume_mission-pause_mission :
    (env later : Services) (mission : Mission) (reason : Text) (paused_by : Option Text)
    → is_terminal mission.state ≡ false
    → state_is mission.state MissionState.paused ≡ false
    → (pause_mission env mission reason paused_by >>= resume_mission later)
      ≡ ok (record mission { pause_metadata = none; updated_at = later.now })
unfolding pause_mission resume_mission is_terminal
resume_mission-pause_mission env later mission reason paused_by live running =
    simp (live, running) refl
