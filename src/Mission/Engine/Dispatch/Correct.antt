-- ===== src/Mission/Engine/Dispatch/Correct.antt =====
-- What dispatchStep of cli/src/mission/mission-engine.ts has checked, and the row it starts from.
use ouroboros_runtime.Base.{
  Bool, true, false, not, ◌&&◌, ◌||◌, ◌≡◌, ◌≢◌, refl, subst, Option, none, some, [], ◌∷◌, find?, In,
  find?-eq-some, Option-cases, Bool-cases, inl, inr, ◌==◌, ==_iff, Result, ok, ◌>>=◌, ◌>>◌,
  reject_if, >>=-eq-ok, arith,
}
use ouroboros_runtime.Base.Text.{Text, text_eq}
use ouroboros_runtime.Mission.Contracts.{
  Mission, MissionState, PlanStep, PlanRevision, CapabilityContract, state_is,
}
use ouroboros_runtime.Mission.Policy.Validate.{validate}
use ouroboros_runtime.Mission.Policy.Spec.{PlanAllowed}
use ouroboros_runtime.Mission.Policy.Spec.Plans.{validate_iff}
use ouroboros_runtime.Mission.Engine.Services.{Services, EngineError}
use ouroboros_runtime.Mission.Engine.Steps.{IsSound, IsNumbered}
use ouroboros_runtime.Mission.Engine.Dispatch.{
  DispatchDescriptor, approval_granted, accepted_plan, authorize, authorize_step, candidate_of,
  dispatched_row,
}

-- What the gates demand of a dispatch of `step`.
pub record IsAuthorized (env : Services) (get_plan_revision : Text → Option PlanRevision)
    (mission : Mission) (step_id : Text) (step : PlanStep) (contract : CapabilityContract)
    : Type 0 where
  pub revision : PlanRevision
  pub is_active :
      (state_is mission.state MissionState.ready || state_is mission.state MissionState.executing)
      ≡ true
  pub revision_id : Text
  pub has_plan : mission.current_plan_revision_id ≡ some revision_id
  pub has_name : revision_id ≢ []
  pub is_stored : get_plan_revision revision_id ≡ some revision
  pub in_plan : In step revision.steps
  pub has_id : step.step_id ≡ step_id
  pub is_granted : approval_granted mission step ≡ true
  pub in_catalog : env.resolve step.capability_requirement ≡ some contract
  pub plan_allowed : PlanAllowed env.digest env.resolve mission (candidate_of mission revision)

either-active : (a b : Bool) → (not a && not b) ≡ false → (a || b) ≡ true
either-active a b h = ground arith

not-false : (b : Bool) → not b ≡ false → b ≡ true
not-false b h = ground arith

accepted_plan-eq-some :
    (id : Option Text) {revision_id : Text}
    → accepted_plan id ≡ some revision_id
    → (id ≡ some revision_id) × (revision_id ≢ [])
unfolding accepted_plan
accepted_plan-eq-some none h = absurd (cc h)
accepted_plan-eq-some (some []) h = absurd (cc h)
accepted_plan-eq-some (some (c ∷ cs)) h = (h, λ e. cc (h, e))

module _ (env : Services) where
  authorize_step-eq-ok :
      (mission : Mission) (revision : PlanRevision) (step : PlanStep)
      {contract : CapabilityContract}
      → authorize_step env mission revision step ≡ ok contract
      → (approval_granted mission step ≡ true)
        × (env.resolve step.capability_requirement ≡ some contract)
        × ((validate env.digest env.resolve mission (candidate_of mission revision)).valid ≡ true)
  unfolding authorize_step
  authorize_step-eq-ok mission revision step {contract} h =
      elim (Bool-cases (approval_granted mission step)) [
        | inr f ↦ absurd (cc (simp f at h))
        | inl granted ↦ elim (Option-cases (env.resolve step.capability_requirement)) [
          | inl gone ↦ absurd (cc (simp (granted, gone) at h))
          | inr (c, e) ↦
              elim (Bool-cases
                (validate env.digest env.resolve mission (candidate_of mission revision)).valid) [
                  | inr f ↦ absurd (cc (simp (granted, e, f) at h))
                  | inl valid ↦
                      let same : c ≡ contract = cc (simp (granted, e, valid) at h) in
                      (granted, rw (← same) e, valid)
                ]
        ]
      ]

  passed :
      (a : Bool) (e : EngineError) (k : Result EngineError (PlanStep × CapabilityContract))
      {x : PlanStep × CapabilityContract}
      → (reject_if a e >> k) ≡ ok x
      → (a ≡ false) × (k ≡ ok x)
  passed true e k h = absurd (cc h)
  passed false e k h = (refl, h)

  module _ (get_plan_revision : Text → Option PlanRevision) where
    -- A step that was found in the revision with this id.
    authorize_step-IsAuthorized :
        (mission : Mission) (revision : PlanRevision) (revision_id step_id : Text) (s : PlanStep)
        {step : PlanStep} {contract : CapabilityContract}
        → (state_is mission.state MissionState.ready
            || state_is mission.state MissionState.executing)
          ≡ true
        → (mission.current_plan_revision_id ≡ some revision_id) × (revision_id ≢ [])
        → get_plan_revision revision_id ≡ some revision
        → find? (λ (u : PlanStep). u.step_id == step_id) revision.steps ≡ some s
        → ◌>>=◌ {T = PlanStep × CapabilityContract}
            (authorize_step env mission revision s)
            (λ c. ok (s, c))
          ≡ ok (step, contract)
        → IsAuthorized env get_plan_revision mission step_id step contract
    authorize_step-IsAuthorized mission revision revision_id step_id s {step} {contract} active
          (planned, named) stored found h =
        let (c, a, h2) = >>=-eq-ok (authorize_step env mission revision s) _ h in
        let same : s ≡ step = cc h2 in
        let same' : c ≡ contract = cc h2 in
        let (granted, e, valid) = authorize_step-eq-ok mission revision s a in
        let (is_id, member) =
          find?-eq-some (λ (u : PlanStep). u.step_id == step_id) revision.steps found in
        let for_found : IsAuthorized env get_plan_revision mission step_id s c = record {
          revision = revision;
          is_active = active;
          revision_id = revision_id;
          has_plan = planned;
          has_name = named;
          is_stored = stored;
          in_plan = member;
          has_id = (==_iff s.step_id step_id).0 is_id;
          is_granted = granted;
          in_catalog = e;
          plan_allowed =
              (validate_iff env.digest env.resolve mission (candidate_of mission revision)).0 valid;
        } in
        subst (λ x. IsAuthorized env get_plan_revision mission step_id x contract) same
          (subst (λ y. IsAuthorized env get_plan_revision mission step_id s y) same' for_found)

    -- A dispatch passes its gates only for a step of the plan that the store has under the Mission's
    -- current plan id, of a ready or executing Mission, whose approval is granted, whose capability is in
    -- the catalog, and whose whole plan the policy allows.
    pub authorize-IsAuthorized :
        (mission : Mission) (step_id : Text) {step : PlanStep} {contract : CapabilityContract}
        → authorize env get_plan_revision mission step_id ≡ ok (step, contract)
        → IsAuthorized env get_plan_revision mission step_id step contract
    unfolding authorize
    authorize-IsAuthorized mission step_id {step} {contract} h =
        let (idle, h1) =
          passed
            (not (state_is mission.state MissionState.ready)
              && not (state_is mission.state MissionState.executing))
            EngineError.dispatch_state _ h in
        let active =
          either-active (state_is mission.state MissionState.ready)
            (state_is mission.state MissionState.executing) idle in
        elim (Option-cases (accepted_plan mission.current_plan_revision_id)) [
          | inl missing ↦ absurd (cc (simp missing at h1))
          | inr (revision_id, p) ↦ elim (Option-cases (get_plan_revision revision_id)) [
            | inl missing ↦ absurd (cc (simp (p, missing) at h1))
            | inr (revision, r) ↦
                elim (Option-cases
                  (find? (λ (s : PlanStep). s.step_id == step_id) revision.steps)) [
                    | inl missing ↦ absurd (cc (simp (p, r, missing) at h1))
                    | inr (s, found) ↦
                        authorize_step-IsAuthorized mission revision revision_id step_id s active
                          (accepted_plan-eq-some mission.current_plan_revision_id p) r found
                          (simp (p, r, found) at h1)
                  ]
          ]
        ]

  -- The row that a dispatch starts from is sound.
  pub dispatched_row-IsSound :
      (mission : Mission) (revision : PlanRevision) (step : PlanStep) (d : DispatchDescriptor)
      (invocation_id correlation_id : Text)
      → IsSound (dispatched_row env mission revision step d invocation_id correlation_id)
  unfolding dispatched_row IsNumbered
  dispatched_row-IsSound mission revision step d invocation_id correlation_id = record {
    failed_delivered = λ f. cc f;
    completed_not_rejected = λ c. refl;
    numbered = (refl, tt);
    some_attempt = omega arith;
    at_least_last = omega arith;
    at_most_next = omega arith;
    within_budget = omega arith;
  }
