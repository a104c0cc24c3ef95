-- ===== src/Mission/Tests/Scheduling.antt =====
-- The theorems on the scheduler at a small Mission.
use ouroboros_runtime.Base.{◌+◌, ◌≡◌, refl, ◌↔◌, true, false, some, List, [], ◌∷◌, inl, ok}
use ouroboros_runtime.Base.Text.{Text}
use ouroboros_runtime.Mission.Contracts.{MissionState}
use ouroboros_runtime.Mission.Scheduler.{get_invocation_scheduling_facts, is_ready_step}
use ouroboros_runtime.Mission.Scheduler.Ready.{IsReady, is_ready_step_iff}
use ouroboros_runtime.Mission.Scheduler.Pass.{
  MissionSchedulingRecord, Ports, Pass, schedule_mission, schedule_missions,
}
use ouroboros_runtime.Mission.Scheduler.Asks.{Leaves, successes}
use ouroboros_runtime.Mission.Scheduler.Runs.{
  IsAllowed, schedule_mission-IsAllowed, left_by, schedule_missions-successes,
}
use ouroboros_runtime.Mission.Samples.{mission_name, services, revision, step, first_row}

-- The step is ready before its first row, and not after.
is_ready_step_iff_example :
    (is_ready_step services.digest revision.steps
        (get_invocation_scheduling_facts services.digest
          (first_row ∷ [])
          mission_name
          revision.steps)
        step
      ≡ true)
    ↔ IsReady services.digest (first_row ∷ []) mission_name revision.steps step
is_ready_step_iff_example =
    is_ready_step_iff services.digest (first_row ∷ []) mission_name revision.steps step (inl refl)

-- What the world keeps here is the steps that were dispatched.
abbrev ports : Ports (List Text)
ports = record {
  digest = services.digest;
  rows = λ world. [];
  mission_state = λ m world. some MissionState.ready;
  plan_revision = λ id world. some revision;
  can_dispatch = λ c world. true;
  dispatch = λ m s world. (ok s, s ∷ world);
  restore_waiting_to_ready = λ m world. (true, world);
  set_waiting = λ m world. (true, world);
  block_mission = λ m world. (true, world);
}

abbrev waiting : MissionSchedulingRecord
waiting = record {
  mission_id = mission_name;
  state = MissionState.waiting_for_capability;
  current_plan_revision_id = some (82 ∷ []);
}

abbrev begun : Pass (List Text)
begun = record {
  world = [];
  dispatch_slots = 2;
  did_dispatch = false;
  dispatched_invocation_ids = [];
  waiting_mission_ids = [];
  asked = [];
}

schedule_mission-IsAllowed_example :
    Leaves
      (IsAllowed ports (some 5) waiting revision begun)
      begun
      (schedule_mission ports (some 5) waiting begun)
schedule_mission-IsAllowed_example =
    schedule_mission-IsAllowed ports (some 5) waiting revision begun refl

schedule_missions-successes_example :
    let q =
      left_by ports (some 5) (schedule_missions ports (some 5) (waiting ∷ waiting ∷ []) begun) in
    successes q.asked + q.dispatch_slots ≡ 2
schedule_missions-successes_example =
    schedule_missions-successes ports (some 5) (waiting ∷ waiting ∷ []) begun refl
