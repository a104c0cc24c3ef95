-- ===== src/Mission/Scheduler/Pass.antt =====
-- One pass of cli/src/mission/mission-scheduler.ts over a Mission: the body of the loop on the page of
-- Missions in runOnce, handleDispatchError and appendReportId. The store, the engine and the dispatch
-- seam are what the pass is given; `World` is what they keep.
use ouroboros_runtime.Base.{
  ℕ, ◌-◌, Bool, true, false, not, ◌&&◌, ◌||◌, Option, none, some, List, [], ◌∷◌, ◌++◌, is_empty,
  length, ltb, leb, nat_beq, if◌then◌else◌, contains, Result, ok, err, ◌>>=◌,
}
use ouroboros_runtime.Base.Text.{Text, text_eq}
use ouroboros_runtime.Mission.Contracts.{
  CapabilityInvocation, EffectFingerprintInput, MissionState, PlanRevision, PlanStep, is_terminal,
  state_is,
}
use ouroboros_runtime.Mission.Scheduler.{
  get_invocation_scheduling_facts, ready_steps, dispatchable_steps,
}

-- Of the errors of the seam only this one matters: that a capability has no descriptor or connector.
pub data DispatchError : Type 0 where
  capability_unavailable : DispatchError
  other_failure : DispatchError

pub record MissionSchedulingRecord : Type 0 where
  pub mission_id : Text
  pub state : MissionState
  pub current_plan_revision_id : Option Text

-- A call that changes the state of a Mission returns whether it did, and false when it throws.
pub record Ports (World : Type 0) : Type 0 where
  pub digest : EffectFingerprintInput → Text
  pub rows : World → List CapabilityInvocation
  pub mission_state : (mission_id : Text) → World → Option MissionState
  pub plan_revision : (revision_id : Text) → World → Option PlanRevision
  pub can_dispatch : (capability_id : Text) → World → Bool
  pub dispatch : (mission_id step_id : Text) → World → Result DispatchError Text × World
  pub restore_waiting_to_ready : (mission_id : Text) → World → Bool × World
  pub set_waiting : (mission_id : Text) → World → Bool × World
  pub block_mission : (mission_id : Text) → World → Bool × World

-- A call of dispatchThroughSeam, and whether it returned.
pub record Ask : Type 0 where
  pub mission_id : Text
  pub step : PlanStep
  pub succeeded : Bool

pub record Pass (World : Type 0) : Type 0 where
  pub world : World
  pub dispatch_slots : ℕ
  pub did_dispatch : Bool
  pub dispatched_invocation_ids : List Text
  pub waiting_mission_ids : List Text
  pub asked : List Ask

abbrev pub can_run : MissionState → Bool
can_run state = state_is state MissionState.ready || state_is state MissionState.executing

abbrev pub can_wait_for_capability : MissionState → Bool
can_wait_for_capability state = can_run state || state_is state MissionState.waiting_for_capability

abbrev pub is_at_limit : Option ℕ → List Text → Bool
is_at_limit none ids = false
is_at_limit (some limit) ids = leb limit (length ids)

unfoldable pub append_report_id : (limit : Option ℕ) → List Text → Text → List Text
append_report_id limit ids id = if is_at_limit limit ids then ids else ids ++ id ∷ []

-- `recordWaitingMissionId`: with a limit no id is reported twice.
unfoldable pub record_waiting : (limit : Option ℕ) → List Text → Text → List Text
unfolding append_report_id
record_waiting none ids id = append_report_id none ids id
record_waiting (some limit) ids id =
    if contains id ids then ids else append_report_id (some limit) ids id

module _ {World : Type 0} (ports : Ports World) (limit : Option ℕ) where
  abbrev pub reports_waiting : Text → Pass World → Pass World
  reports_waiting mission_id p = record p {
    waiting_mission_ids = record_waiting limit p.waiting_mission_ids mission_id;
  }

  -- A run that throws leaves its pass behind too.
  unfoldable pub enter_wait : Text → Pass World → Result (Pass World) (Pass World)
  enter_wait mission_id p =
      let (done, world) = ports.set_waiting mission_id p.world in
      let next = record p { world = world } in
      if done then ok (reports_waiting mission_id next) else err next

  unfoldable pub wait_if_possible : Text → Pass World → Result (Pass World) (Pass World)
  unfolding enter_wait
  wait_if_possible mission_id p = elim (ports.mission_state mission_id p.world) [
    | none ↦ ok p
    | some state ↦
        if not (can_wait_for_capability state)
        then ok p
        else if state_is state MissionState.waiting_for_capability
        then ok (reports_waiting mission_id p)
        else enter_wait mission_id p
  ]

  unfoldable pub block_if_possible : Text → Pass World → Result (Pass World) (Pass World)
  block_if_possible mission_id p = elim (ports.mission_state mission_id p.world) [
    | none ↦ ok p
    | some state ↦
        let (done, world) = ports.block_mission mission_id p.world in
        let next = record p { world = world } in
        if is_terminal state || state_is state MissionState.paused
        then ok p
        else if done
        then ok next
        else err next
  ]

  unfoldable pub handle_dispatch_error :
      Text → DispatchError → Pass World → Result (Pass World) (Pass World)
  unfolding wait_if_possible block_if_possible
  handle_dispatch_error mission_id DispatchError.capability_unavailable p =
      wait_if_possible mission_id p
  handle_dispatch_error mission_id DispatchError.other_failure p = block_if_possible mission_id p

  -- The call of the seam for one step, with what the pass notes of it.
  unfoldable pub ask : Text → PlanStep → Pass World → Result DispatchError Text × Pass World
  unfolding append_report_id
  ask mission_id step p =
      let (outcome, world) = ports.dispatch mission_id step.step_id p.world in
      elim outcome [
        | err e ↦ (
          err e,
          record p {
            world = world;
            asked =
                p.asked ++ record { mission_id = mission_id; step = step; succeeded = false } ∷ [];
          },
        )
        | ok id ↦ (
          ok id,
          record p {
            world = world;
            dispatch_slots = p.dispatch_slots - 1;
            did_dispatch = true;
            dispatched_invocation_ids = append_report_id limit p.dispatched_invocation_ids id;
            asked =
                p.asked ++ record { mission_id = mission_id; step = step; succeeded = true } ∷ [];
          },
        )
      ]

  -- The loop over the dispatchable steps: whether a capability became unavailable, and the pass.
  unfoldable pub dispatch_steps :
      Text
      → List PlanStep
      → (became_unavailable : Bool) → Pass World
      → Result (Pass World) (Bool × Pass World)
  unfolding ask handle_dispatch_error
  dispatch_steps mission_id [] became p = ok (became, p)
  dispatch_steps mission_id (step ∷ steps) became p =
      let rest = dispatch_steps mission_id steps in
      let (outcome, next) = ask mission_id step p in
      if nat_beq p.dispatch_slots 0 then ok (became, p) else elim outcome [
        | ok id ↦ rest became next
        | err DispatchError.capability_unavailable ↦ rest true next
        | err DispatchError.other_failure ↦
            handle_dispatch_error mission_id DispatchError.other_failure next >>= λ q.
            ok (became, q)
      ]

  -- What follows the loop over the steps.
  unfoldable pub after_steps :
      Text → (unavailable : Bool) → Bool × Pass World → Result (Pass World) (Pass World)
  unfolding wait_if_possible
  after_steps mission_id unavailable (became, p) =
      if unavailable || became then wait_if_possible mission_id p else ok p

  unfoldable pub dispatch_plan :
      Text
      → (dispatchable : List PlanStep) → (unavailable : Bool) → Pass World
      → Result (Pass World) (Pass World)
  unfolding dispatch_steps after_steps
  dispatch_plan mission_id dispatchable unavailable p =
      dispatch_steps mission_id dispatchable false p >>= after_steps mission_id unavailable

  -- A Mission that waits for a capability is first restored; none when the pass leaves it waiting.
  unfoldable pub restored : Text → Pass World → Bool × Pass World
  restored mission_id p =
      let (done, world) = ports.restore_waiting_to_ready mission_id p.world in
      let next = record p { world = world } in
      if not done then (false, next) else elim (ports.mission_state mission_id world) [
        | none ↦ (false, next)
        | some state ↦ (can_run state, next)
      ]

  unfoldable pub schedule_plan :
      MissionSchedulingRecord → PlanRevision → Pass World → Result (Pass World) (Pass World)
  unfolding dispatch_plan restored enter_wait
  schedule_plan mission revision p =
      let facts =
        get_invocation_scheduling_facts ports.digest (ports.rows p.world) mission.mission_id
          revision.steps in
      let ready = ready_steps ports.digest revision.steps facts in
      let dispatchable =
        dispatchable_steps ports.digest revision.steps facts (λ c. ports.can_dispatch c p.world) in
      let unavailable = ltb (length dispatchable) (length ready) in
      let (may_run, next) = restored mission.mission_id p in
      if state_is mission.state MissionState.waiting_for_capability
      then (if is_empty dispatchable
          then ok p
          else if not may_run
          then ok next
          else dispatch_plan mission.mission_id dispatchable unavailable next)
      else if not (is_empty ready) && is_empty dispatchable
      then enter_wait mission.mission_id p
      else dispatch_plan mission.mission_id dispatchable unavailable p

  -- The plan revision that the Mission is to follow. An empty id is falsy.
  abbrev pub current_revision : MissionSchedulingRecord → World → Option PlanRevision
  current_revision mission world = elim mission.current_plan_revision_id [
    | none ↦ none
    | some id ↦ if is_empty id then none else ports.plan_revision id world
  ]

  unfoldable pub schedule_mission :
      MissionSchedulingRecord → Pass World → Result (Pass World) (Pass World)
  unfolding schedule_plan
  schedule_mission mission p =
      if not (can_wait_for_capability mission.state)
      then ok p
      else elim (current_revision mission p.world) [
        | none ↦ ok p
        | some revision ↦ schedule_plan mission revision p
      ]

  -- The Missions of the pages, in order, until no slot is left.
  unfoldable pub schedule_missions :
      List MissionSchedulingRecord → Pass World → Result (Pass World) (Pass World)
  unfolding schedule_mission
  schedule_missions [] p = ok p
  schedule_missions (mission ∷ missions) p =
      let rest = schedule_missions missions in
      if nat_beq p.dispatch_slots 0 then ok p else schedule_mission mission p >>= rest
