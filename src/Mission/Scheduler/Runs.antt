-- ===== src/Mission/Scheduler/Runs.antt =====
-- A pass of cli/src/mission/mission-scheduler.ts asks the dispatch seam only for steps that are ready, of
-- Missions that may run, and within its slots.
use ouroboros_runtime.Base.{
  ℕ, ◌+◌, ◌≡◌, refl, ap, ◌∙◌, ◌++◌, inl, inr, Bool, true, Option, some, List, [], ◌∷◌, All-tabulate,
  In, In-keep, nat_beq, Result, ok, err, Bool-cases, Option-cases, arith,
}
use ouroboros_runtime.Mission.Contracts.{PlanRevision, PlanStep}
use ouroboros_runtime.Mission.Scheduler.{
  get_invocation_scheduling_facts, is_ready_step, ready_steps, dispatchable_steps,
}
use ouroboros_runtime.Mission.Scheduler.Ready.{IsReady, is_ready_step_iff}
use ouroboros_runtime.Mission.Scheduler.Pass.{
  MissionSchedulingRecord, Ports, Ask, Pass, can_wait_for_capability, current_revision,
  schedule_mission, schedule_missions,
}
use ouroboros_runtime.Mission.Scheduler.Asks.{
  Grown, Grown-same, Leaves, Leaves->>=, MayRun, dispatchable_in, schedule_plan-Leaves, successes,
}

module _ {World : Type 0} (ports : Ports World) (limit : Option ℕ) where
  -- The call is for a step of the plan that is ready by the rows at the start, with a capability that
  -- could be dispatched then, and for a Mission that may run.
  pub record IsAllowed (mission : MissionSchedulingRecord) (revision : PlanRevision)
      (p : Pass World) (a : Ask) : Type 0 where
    pub of_mission : a.mission_id ≡ mission.mission_id
    pub planned : In a.step revision.steps
    pub ready : IsReady ports.digest (ports.rows p.world) mission.mission_id revision.steps a.step
    pub available : ports.can_dispatch a.step.capability_requirement p.world ≡ true
    pub may_run : MayRun ports limit mission p

  dispatchable-IsAllowed :
      (mission : MissionSchedulingRecord) (revision : PlanRevision) (p : Pass World) (s : PlanStep)
      (b : Bool)
      → MayRun ports limit mission p
      → In s (dispatchable_in ports limit mission revision p.world)
      → IsAllowed mission revision p
          (record { mission_id = mission.mission_id; step = s; succeeded = b })
  unfolding dispatchable_steps ready_steps
  dispatchable-IsAllowed mission revision p s b may m =
      let facts =
        get_invocation_scheduling_facts ports.digest (ports.rows p.world) mission.mission_id
          revision.steps in
      let (chosen, available) =
        In-keep (λ (u : PlanStep). ports.can_dispatch u.capability_requirement p.world)
          (ready_steps ports.digest revision.steps facts) s m in
      let (planned, passed) =
        In-keep (is_ready_step ports.digest revision.steps facts) revision.steps s chosen in
      record {
        of_mission = refl;
        planned = planned;
        ready =
            (is_ready_step_iff ports.digest (ports.rows p.world) mission.mission_id revision.steps s
                planned).0
              passed;
        available = available;
        may_run = may;
      }

  -- Scheduling a Mission whose current plan the engine has makes only calls of the seam that are allowed,
  -- also where the plan repeats a step id, and each that returns takes one slot.
  pub schedule_mission-IsAllowed :
      (mission : MissionSchedulingRecord) (revision : PlanRevision) (p : Pass World)
      → current_revision ports limit mission p.world ≡ some revision
      → Leaves (IsAllowed mission revision p) p (schedule_mission ports limit mission p)
  unfolding schedule_mission
  schedule_mission-IsAllowed mission revision p current =
      elim (Bool-cases (can_wait_for_capability mission.state)) [
        | inr f ↦ rw (schedule_mission, f) (Grown-same (IsAllowed mission revision p) p p refl refl)
        | inl t ↦
            rw (schedule_mission, t, current)
              (schedule_plan-Leaves (IsAllowed mission revision p) ports limit mission revision p t
                λ may.
                  All-tabulate _ _ (λ s m b. dispatchable-IsAllowed mission revision p s b may m))
      ]

  -- The same of the pass over all Missions, whatever the calls.
  abbrev AnyCall : Ask → Type 0
  AnyCall a = Unit

  schedule_mission-AnyCall :
      (mission : MissionSchedulingRecord) (p : Pass World)
      → Leaves AnyCall p (schedule_mission ports limit mission p)
  unfolding schedule_mission
  schedule_mission-AnyCall mission p = elim (Bool-cases (can_wait_for_capability mission.state)) [
    | inl t ↦ elim (Option-cases (current_revision ports limit mission p.world)) [
      | inl e ↦ rw (schedule_mission, t, e) (Grown-same AnyCall p p refl refl)
      | inr (revision, e) ↦
          rw (schedule_mission, t, e)
            (schedule_plan-Leaves AnyCall ports limit mission revision p t
              λ may. All-tabulate _ _ (λ s m b. tt))
    ]
    | inr f ↦ rw (schedule_mission, f) (Grown-same AnyCall p p refl refl)
  ]

  schedule_missions-AnyCall :
      (missions : List MissionSchedulingRecord) (p : Pass World)
      → Leaves AnyCall p (schedule_missions ports limit missions p)
  unfolding schedule_missions
  schedule_missions-AnyCall [] p = Grown-same AnyCall p p refl refl
  schedule_missions-AnyCall (mission ∷ missions) p =
      elim (Bool-cases (nat_beq p.dispatch_slots 0)) [
        | inl t ↦ rw (schedule_missions, t) (Grown-same AnyCall p p refl refl)
        | inr f ↦
            rw (schedule_missions, f)
              (Leaves->>= AnyCall p (schedule_mission ports limit mission p)
                (schedule_missions ports limit missions) (schedule_mission-AnyCall mission p)
                (λ q g. schedule_missions-AnyCall missions q))
      ]

  -- The pass that a run leaves, also when it throws.
  abbrev pub left_by : Result (Pass World) (Pass World) → Pass World
  left_by (err q) = q
  left_by (ok q) = q

  Leaves-left_by :
      (P : Ask → Type 0) (p : Pass World) (r : Result (Pass World) (Pass World))
      → Leaves P p r
      → Grown P p (left_by r)
  Leaves-left_by P p (err q) g = g
  Leaves-left_by P p (ok q) g = g

  -- However many Missions are scheduled, and also when the run throws, no more calls of the seam return
  -- than there were slots, and the slots that are left are the others.
  pub schedule_missions-successes :
      (missions : List MissionSchedulingRecord) (p : Pass World)
      → p.asked ≡ []
      → let q = left_by (schedule_missions ports limit missions p) in
        successes q.asked + q.dispatch_slots ≡ p.dispatch_slots
  schedule_missions-successes missions p fresh =
      let run = schedule_missions ports limit missions p in
      let g = Leaves-left_by AnyCall p run (schedule_missions-AnyCall missions p) in
      let same : (left_by run).asked ≡ g.calls =
        g.appended ∙ ap (λ (xs : List Ask). xs ++ g.calls) fresh in
      omega (arith, ap successes same, g.slots)
