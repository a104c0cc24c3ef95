-- ===== src/Mission/Scheduler.antt =====
-- Which steps of a plan cli/src/mission/mission-scheduler.ts may dispatch, from the rows of invocations
-- that the store holds: the selection in runOnce, on the facts of getInvocationSchedulingFacts of
-- cli/src/mission/sqlite-mission-store.ts.
pub mod Lasts
pub mod Ready
pub mod Pass
pub mod Asks
pub mod Runs
use ouroboros_runtime.Base.{
  Bool, true, false, not, ◌&&◌, ◌||◌, Option, none, some, List, [], ◌∷◌, map, keep, any, is_some,
  length, ltb, if◌then◌else◌, ◌==◌, contains,
}
use ouroboros_runtime.Base.Text.{Text, text, text_eq, starts_with}
use ouroboros_runtime.Mission.Contracts.{
  CapabilityInvocation, EffectFingerprintInput, InvocationStatus, PlanStep, status_is,
}
use ouroboros_runtime.Mission.Policy.Validate.{step_fingerprint}

pub record InvocationSchedulingFact : Type 0 where
  pub step_id : Text
  pub effect_fingerprint : Text
  pub has_effect_claim : Bool
  pub has_completed_effect : Bool
  pub has_legacy_replay_barrier : Bool

-- `new Map(as.map((a) => [key(a), a])).get(k)`: of the entries with one key the last counts.
unfoldable pub last_with : {A : Type 0} → (A → Text) → Text → List A → Option A
last_with key k [] = none
last_with key k (a ∷ es) =
    let later = last_with key k es in
    if is_some later then later else if key a == k then some a else none

-- The rows that the three queries of the store look for.
abbrev pub claims : (mission_id fingerprint : Text) → CapabilityInvocation → Bool
claims mission_id fingerprint row =
    row.mission_id == mission_id && row.effect_fingerprint == fingerprint

abbrev pub completes : (mission_id fingerprint : Text) → CapabilityInvocation → Bool
completes mission_id fingerprint row =
    claims mission_id fingerprint row && status_is row.status InvocationStatus.completed

abbrev pub bars : (mission_id step_id : Text) → CapabilityInvocation → Bool
bars mission_id step_id row =
    row.mission_id == mission_id
    && (row.step_id == step_id && starts_with row.effect_fingerprint (text "legacy:"))

-- `effectByStep.get(step.stepId)!`, of a step of the plan.
unfoldable pub effect_of :
    (digest : EffectFingerprintInput → Text) (steps : List PlanStep) → PlanStep → Text
unfolding last_with
effect_of digest steps step = elim (last_with (λ (s : PlanStep). s.step_id) step.step_id steps) [
  | none ↦ step_fingerprint digest step
  | some s ↦ step_fingerprint digest s
]

module _ (digest : EffectFingerprintInput → Text) (rows : List CapabilityInvocation)
    (mission_id : Text) where
  abbrev pub scheduling_fact : (effect : PlanStep → Text) → PlanStep → InvocationSchedulingFact
  scheduling_fact effect step = record {
    step_id = step.step_id;
    effect_fingerprint = effect step;
    has_effect_claim = any (claims mission_id (effect step)) rows;
    has_completed_effect = any (completes mission_id (effect step)) rows;
    has_legacy_replay_barrier = any (bars mission_id step.step_id) rows;
  }

  unfoldable pub get_invocation_scheduling_facts : List PlanStep → List InvocationSchedulingFact
  unfolding effect_of
  get_invocation_scheduling_facts steps = map (scheduling_fact (effect_of digest steps)) steps

-- `completedEffects`
unfoldable pub completed_effects : List InvocationSchedulingFact → List Text
completed_effects facts =
    map (λ (f : InvocationSchedulingFact). f.effect_fingerprint)
      (keep (λ (f : InvocationSchedulingFact). f.has_completed_effect) facts)

module _ (digest : EffectFingerprintInput → Text) (steps : List PlanStep)
    (facts : List InvocationSchedulingFact) where
  unfoldable pub is_open_dependency : Text → Bool
  unfolding last_with completed_effects
  is_open_dependency dependency_id =
      elim (last_with (λ (s : PlanStep). s.step_id) dependency_id steps) [
        | none ↦ true
        | some step ↦ not (contains (step_fingerprint digest step) (completed_effects facts))
      ]

  unfoldable pub is_ready_step : PlanStep → Bool
  unfolding last_with is_open_dependency
  is_ready_step step =
      elim (last_with (λ (f : InvocationSchedulingFact). f.step_id) step.step_id facts) [
        | none ↦ false
        | some fact ↦
            if fact.has_effect_claim || fact.has_legacy_replay_barrier
            then false
            else not (any is_open_dependency step.dependency_ids)
      ]

  unfoldable pub ready_steps : List PlanStep
  unfolding is_ready_step
  ready_steps = keep is_ready_step steps

  -- `can_dispatch` is canDispatchCapability of the dispatch seam.
  unfoldable pub dispatchable_steps : (can_dispatch : Text → Bool) → List PlanStep
  unfolding ready_steps
  dispatchable_steps can_dispatch = keep (λ s. can_dispatch s.capability_requirement) ready_steps
