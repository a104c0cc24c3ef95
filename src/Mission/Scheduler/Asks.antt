-- ===== src/Mission/Scheduler/Asks.antt =====
-- What one pass of cli/src/mission/mission-scheduler.ts asks of the dispatch seam.
use ouroboros_runtime.Base.{
  ℕ, ◌+◌, ◌≡◌, refl, sym, ◌∙◌, ap, ◌⊎◌, inl, inr, Bool, true, false, not, ◌&&◌, ◌||◌, Option, List,
  [], ◌∷◌, ◌++◌, append_assoc, append-nil, keep, length, All, All-append, is_empty, nat_beq, Result,
  ok, err, ◌>>=◌, Bool-cases, Option-cases, arith,
}
use ouroboros_runtime.Base.Text.{Text}
use ouroboros_runtime.Mission.Contracts.{
  MissionState, PlanRevision, PlanStep, state_is, is_terminal,
}
use ouroboros_runtime.Mission.Scheduler.{
  get_invocation_scheduling_facts, ready_steps, dispatchable_steps,
}
use ouroboros_runtime.Mission.Scheduler.Pass.{
  DispatchError, MissionSchedulingRecord, Ports, Ask, Pass, can_run, can_wait_for_capability,
  enter_wait, wait_if_possible, block_if_possible, handle_dispatch_error, ask, dispatch_steps,
  after_steps, dispatch_plan, restored, schedule_plan,
}

-- How many of the calls returned.
abbrev pub successes : List Ask → ℕ
successes asks = length (keep (λ (a : Ask). a.succeeded) asks)

successes-append : (xs ys : List Ask) → successes (xs ++ ys) ≡ successes xs + successes ys
successes-append [] ys = omega arith
successes-append (a ∷ xs) ys = ground (arith, successes-append xs ys)

or-left : (a b : Bool) → (a || b) ≡ true → b ≡ false → a ≡ true
or-left a b h f = ground arith

Outcome-cases :
    (r : Result DispatchError Text)
    → ((id : Text) × (r ≡ ok id)) ⊎ ((e : DispatchError) × (r ≡ err e))
Outcome-cases (ok id) = inl (id, refl)
Outcome-cases (err e) = inr (e, refl)

module _ {World : Type 0} (ports : Ports World) (limit : Option ℕ) where
  -- The steps that one Mission's plan may have dispatched.
  abbrev pub dispatchable_in : MissionSchedulingRecord → PlanRevision → World → List PlanStep
  dispatchable_in mission revision world =
      dispatchable_steps ports.digest revision.steps
        (get_invocation_scheduling_facts ports.digest (ports.rows world) mission.mission_id
          revision.steps)
        (λ c. ports.can_dispatch c world)

  -- The Mission is ready or executing, or the pass made it so.
  abbrev pub MayRun : MissionSchedulingRecord → Pass World → Type 0
  MayRun mission p =
      (can_run mission.state ≡ true)
      ⊎ ((state_is mission.state MissionState.waiting_for_capability ≡ true)
          × ((restored ports limit mission.mission_id p).0 ≡ true))

-- From `p` to `q` only calls that satisfy `P` were made, and each that returned took a slot.
module _ {World : Type 0} (P : Ask → Type 0) where
  pub record Grown (p q : Pass World) : Type 0 where
    pub calls : List Ask
    pub appended : q.asked ≡ p.asked ++ calls
    pub slots : q.dispatch_slots + successes calls ≡ p.dispatch_slots
    pub each : All P calls

  pub Grown-same :
      (p q : Pass World) → q.asked ≡ p.asked → q.dispatch_slots ≡ p.dispatch_slots → Grown p q
  Grown-same p q e s = record {
    calls = [];
    appended = e ∙ sym (append-nil p.asked);
    slots = omega (arith, s);
    each = tt;
  }

  Grown-trans : {p q r : Pass World} → Grown p q → Grown q r → Grown p r
  Grown-trans {p} g h = record {
    calls = g.calls ++ h.calls;
    appended =
        h.appended
        ∙ (ap (λ (xs : List Ask). xs ++ h.calls) g.appended ∙ append_assoc p.asked g.calls h.calls);
    slots = omega (arith, successes-append g.calls h.calls, g.slots, h.slots);
    each = All-append P g.calls h.calls g.each h.each;
  }

  -- Whether the run went on or threw.
  abbrev pub Leaves : Pass World → Result (Pass World) (Pass World) → Type 0
  Leaves p (err q) = Grown p q
  Leaves p (ok q) = Grown p q

  pub Leaves->>= :
      (p : Pass World) (r : Result (Pass World) (Pass World))
      (k : Pass World → Result (Pass World) (Pass World))
      → Leaves p r
      → ((q : Pass World) → Grown p q → Leaves q (k q))
      → Leaves p (r >>= k)
  Leaves->>= p (err q) k g h = g
  Leaves->>= p (ok q) k g h = onward p q (k q) g (h q g)
    where
      onward :
          (a b : Pass World) (r : Result (Pass World) (Pass World))
          → Grown a b
          → Leaves b r
          → Leaves a r
      onward a b (err c) x y = Grown-trans x y
      onward a b (ok c) x y = Grown-trans x y

  module _ (ports : Ports World) (limit : Option ℕ) where
    enter_wait-Leaves : (m : Text) (p : Pass World) → Leaves p (enter_wait ports limit m p)
    unfolding enter_wait
    enter_wait-Leaves m p = elim (Bool-cases ((ports.set_waiting m p.world).0)) [
      | inl t ↦ rw (enter_wait, t) (Grown-same p _ refl refl)
      | inr f ↦ rw (enter_wait, f) (Grown-same p _ refl refl)
    ]

    wait_if_possible-Leaves :
        (m : Text) (p : Pass World) → Leaves p (wait_if_possible ports limit m p)
    unfolding wait_if_possible
    wait_if_possible-Leaves m p = elim (Option-cases (ports.mission_state m p.world)) [
      | inl e ↦ rw (wait_if_possible, e) (Grown-same p p refl refl)
      | inr (state, e) ↦ elim (Bool-cases (can_wait_for_capability state)) [
        | inr f ↦ rw (wait_if_possible, e, f) (Grown-same p p refl refl)
        | inl t ↦ elim (Bool-cases (state_is state MissionState.waiting_for_capability)) [
          | inl w ↦ rw (wait_if_possible, e, t, w) (Grown-same p _ refl refl)
          | inr w ↦ rw (wait_if_possible, e, t, w) (enter_wait-Leaves m p)
        ]
      ]
    ]

    block_if_possible-Leaves :
        (m : Text) (p : Pass World) → Leaves p (block_if_possible ports limit m p)
    unfolding block_if_possible
    block_if_possible-Leaves m p = elim (Option-cases (ports.mission_state m p.world)) [
      | inl e ↦ rw (block_if_possible, e) (Grown-same p p refl refl)
      | inr (state, e) ↦
          elim (Bool-cases (is_terminal state || state_is state MissionState.paused)) [
            | inl t ↦ rw (block_if_possible, e, t) (Grown-same p p refl refl)
            | inr f ↦ elim (Bool-cases ((ports.block_mission m p.world).0)) [
              | inl w ↦ rw (block_if_possible, e, f, w) (Grown-same p _ refl refl)
              | inr w ↦ rw (block_if_possible, e, f, w) (Grown-same p _ refl refl)
            ]
          ]
    ]

    ask-Grown :
        (m : Text) (step : PlanStep) (p : Pass World)
        → nat_beq p.dispatch_slots 0 ≡ false
        → ((b : Bool) → P (record { mission_id = m; step = step; succeeded = b }))
        → Grown p (ask ports limit m step p).1
    unfolding ask
    ask-Grown m step p some_left allowed =
        elim (Outcome-cases ((ports.dispatch m step.step_id p.world).0)) [
          | inl (id, e) ↦
              rw (ask, e)
                (record {
                  calls = record { mission_id = m; step = step; succeeded = true } ∷ [];
                  appended = refl;
                  slots = ground (arith, some_left);
                  each = (allowed true, tt);
                })
          | inr (error, e) ↦
              rw (ask, e)
                (record {
                  calls = record { mission_id = m; step = step; succeeded = false } ∷ [];
                  appended = refl;
                  slots = omega arith;
                  each = (allowed false, tt);
                })
        ]

    -- As `Leaves`, for the loop over the steps.
    abbrev LeavesLoop : Pass World → Result (Pass World) (Bool × Pass World) → Type 0
    LeavesLoop p (err q) = Grown p q
    LeavesLoop p (ok (became, q)) = Grown p q

    LeavesLoop-onward :
        (p q : Pass World) (r : Result (Pass World) (Bool × Pass World))
        → Grown p q
        → LeavesLoop q r
        → LeavesLoop p r
    LeavesLoop-onward p q (err x) g h = Grown-trans g h
    LeavesLoop-onward p q (ok (became, x)) g h = Grown-trans g h

    LeavesLoop-blocked :
        (p : Pass World) (became : Bool) (r : Result (Pass World) (Pass World))
        → Leaves p r
        → LeavesLoop p (r >>= λ q. ok (became, q))
    LeavesLoop-blocked p became (err q) h = h
    LeavesLoop-blocked p became (ok q) h = h

    dispatch_steps-LeavesLoop :
        (m : Text) (steps : List PlanStep) (became : Bool) (p : Pass World)
        → All (λ s. (b : Bool) → P (record { mission_id = m; step = s; succeeded = b })) steps
        → LeavesLoop p (dispatch_steps ports limit m steps became p)
    unfolding dispatch_steps handle_dispatch_error
    dispatch_steps-LeavesLoop m [] became p allowed = Grown-same p p refl refl
    dispatch_steps-LeavesLoop m (step ∷ steps) became p allowed =
        let next = (ask ports limit m step p).1 in
        elim (Bool-cases (nat_beq p.dispatch_slots 0)) [
          | inl t ↦ rw (dispatch_steps, t) (Grown-same p p refl refl)
          | inr f ↦
              let grown = ask-Grown m step p f allowed.0 in
              elim (Outcome-cases ((ask ports limit m step p).0)) [
                | inl (id, e) ↦
                    rw (dispatch_steps, f, e)
                      (LeavesLoop-onward p next (dispatch_steps ports limit m steps became next)
                        grown (dispatch_steps-LeavesLoop m steps became next allowed.1))
                | inr (DispatchError.capability_unavailable, e) ↦
                    rw (dispatch_steps, f, e)
                      (LeavesLoop-onward p next (dispatch_steps ports limit m steps true next) grown
                        (dispatch_steps-LeavesLoop m steps true next allowed.1))
                | inr (DispatchError.other_failure, e) ↦
                    rw (dispatch_steps, f, e)
                      (LeavesLoop-onward p next _ grown (
                        LeavesLoop-blocked next became (block_if_possible ports limit m next)
                          (block_if_possible-Leaves m next)))
              ]
        ]

    after_steps-Leaves :
        (m : Text) (unavailable became : Bool) (p : Pass World)
        → Leaves p (after_steps ports limit m unavailable (became, p))
    unfolding after_steps
    after_steps-Leaves m unavailable became p = elim (Bool-cases (unavailable || became)) [
      | inl t ↦ rw (after_steps, t) (wait_if_possible-Leaves m p)
      | inr f ↦ rw (after_steps, f) (Grown-same p p refl refl)
    ]

    finished-Leaves :
        (m : Text) (unavailable : Bool) (p : Pass World)
        (r : Result (Pass World) (Bool × Pass World))
        → LeavesLoop p r
        → Leaves p (r >>= after_steps ports limit m unavailable)
    finished-Leaves m unavailable p (err q) h = h
    finished-Leaves m unavailable p (ok (became, q)) h =
        Leaves->>= p (ok q) (λ x. after_steps ports limit m unavailable (became, x)) h
          (λ x g. after_steps-Leaves m unavailable became x)

    pub dispatch_plan-Leaves :
        (m : Text) (steps : List PlanStep) (unavailable : Bool) (p : Pass World)
        → All (λ s. (b : Bool) → P (record { mission_id = m; step = s; succeeded = b })) steps
        → Leaves p (dispatch_plan ports limit m steps unavailable p)
    unfolding dispatch_plan
    dispatch_plan-Leaves m steps unavailable p allowed =
        finished-Leaves m unavailable p (dispatch_steps ports limit m steps false p)
          (dispatch_steps-LeavesLoop m steps false p allowed)

    restored-Grown : (m : Text) (p : Pass World) → Grown p (restored ports limit m p).1
    unfolding restored
    restored-Grown m p = elim (Bool-cases ((ports.restore_waiting_to_ready m p.world).0)) [
      | inr f ↦ rw (restored, f) (Grown-same p _ refl refl)
      | inl t ↦
          elim (Option-cases (ports.mission_state m (ports.restore_waiting_to_ready m p.world).1)) [
            | inl e ↦ rw (restored, t, e) (Grown-same p _ refl refl)
            | inr (state, e) ↦ rw (restored, t, e) (Grown-same p _ refl refl)
          ]
    ]

    onward-Leaves :
        (p q : Pass World) (r : Result (Pass World) (Pass World))
        → Grown p q
        → Leaves q r
        → Leaves p r
    onward-Leaves p q (err x) g h = Grown-trans g h
    onward-Leaves p q (ok x) g h = Grown-trans g h

    pub schedule_plan-Leaves :
        (mission : MissionSchedulingRecord) (revision : PlanRevision) (p : Pass World)
        → can_wait_for_capability mission.state ≡ true
        → (MayRun ports limit mission p
            → All
                (λ s.
                  (b : Bool)
                  → P (record { mission_id = mission.mission_id; step = s; succeeded = b }))
                (dispatchable_in ports limit mission revision p.world))
        → Leaves p (schedule_plan ports limit mission revision p)
    unfolding schedule_plan
    schedule_plan-Leaves mission revision p can allowed =
        let m = mission.mission_id in
        let steps = dispatchable_in ports limit mission revision p.world in
        let ready =
          ready_steps ports.digest revision.steps
            (get_invocation_scheduling_facts ports.digest (ports.rows p.world) m revision.steps) in
        let waits = state_is mission.state MissionState.waiting_for_capability in
        elim (Bool-cases waits) [
          | inl w ↦ elim (Bool-cases (is_empty steps)) [
            | inl t ↦ rw (schedule_plan, w, t) (Grown-same p p refl refl)
            | inr some_step ↦ elim (Bool-cases ((restored ports limit m p).0)) [
              | inr f ↦ rw (schedule_plan, w, some_step, f) (restored-Grown m p)
              | inl t ↦
                  rw (schedule_plan, w, some_step, t)
                    (onward-Leaves p (restored ports limit m p).1 _ (restored-Grown m p) (
                      dispatch_plan-Leaves m steps _ (restored ports limit m p).1
                        (allowed (inr (w, t)))))
            ]
          ]
          | inr f ↦ elim (Bool-cases (not (is_empty ready) && is_empty steps)) [
            | inl t ↦ rw (schedule_plan, f, t) (enter_wait-Leaves m p)
            | inr g ↦
                rw (schedule_plan, f, g)
                  (dispatch_plan-Leaves m steps _ p
                    (allowed (inl (or-left (can_run mission.state) waits can f))))
          ]
        ]
