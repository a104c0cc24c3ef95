-- ===== src/Mission/Policy/Spec/Plans.antt =====
-- The validator accepts exactly the plans that the specification allows.
use ouroboros_runtime.Base.{
  Bool, true, false, not, ◌≡◌, ◌≢◌, ◌↔◌, refl, inl, inr, Option, none, some, List, [], ◌∷◌,
  is_empty, ◌==◌, ==_iff, Bool-cases,
}
use ouroboros_runtime.Base.Text.{Text, text_eq}
use ouroboros_runtime.Mission.Contracts.{
  Mission, PlanCandidate, CapabilityContract, EffectFingerprintInput,
}
use ouroboros_runtime.Mission.Policy.Decision.{build-valid, reject-build, reject_when_twice-nil}
use ouroboros_runtime.Mission.Policy.Multisets.{same_string_list_iff}
use ouroboros_runtime.Mission.Policy.Graph.{has_cycle}
use ouroboros_runtime.Mission.Policy.Graph.Laws.{has_cycle_iff, unknown_references-nil}
use ouroboros_runtime.Mission.Policy.Validate.{is_mutation, validate_plan, validate}
use ouroboros_runtime.Mission.Policy.Spec.{Unchanged, PlanAllowed}
use ouroboros_runtime.Mission.Policy.Spec.Steps.{not-false, is_empty-false}
use ouroboros_runtime.Mission.Policy.Spec.Approvals.{validate_steps-nil}

has_cycle-false : (b : Bool) {P : Type 0} → (b ≡ true) ↔ P → (b ≡ false) ↔ (¬ P)
has_cycle-false true e = (λ h. cc, λ n. absurd (n (e.0 refl)))
has_cycle-false false e = (λ _ p. cc (e.1 p), λ _. refl)

not-is_empty-false : {A : Type 0} (xs : List A) → (not (is_empty xs) ≡ false) ↔ (xs ≡ [])
not-is_empty-false [] = (λ _. refl, λ _. refl)
not-is_empty-false (x ∷ xs) = (λ h. cc, λ h. cc)

module _ (digest : EffectFingerprintInput → Text)
    (resolver : Text → Option CapabilityContract) where
  is_mutation-false :
      (proposed : Option (List Text)) (own : List Text)
      → (is_mutation digest resolver proposed own ≡ false) ↔ Unchanged digest resolver proposed own
  unfolding is_mutation
  is_mutation-false none own = (λ _. tt, λ _. refl)
  is_mutation-false (some p) own = (
    λ h. (same_string_list_iff p own).0 ((not-false _).0 h),
    λ q. (not-false _).1 ((same_string_list_iff p own).1 q),
  )

  module _ (mission : Mission) (candidate : PlanCandidate) where
    validate_plan-PlanAllowed :
        candidate.mission_id ≡ mission.mission_id
        → candidate.steps ≢ []
        → validate_plan digest resolver mission candidate ≡ []
        → PlanAllowed digest resolver mission candidate
    unfolding validate_plan
    validate_plan-PlanAllowed same full h =
        let (before_steps, steps) =
          (validate_steps-nil digest resolver mission candidate.steps _).0 h in
        let (before_graph, cycle, unknown) = (reject_when_twice-nil _ _ _ _ _).0 before_steps in
        let (e, acceptance, constraints) = (reject_when_twice-nil _ _ _ _ []).0 before_graph in
        record {
          same_mission = same;
          some_step = full;
          same_acceptance = (is_mutation-false _ mission.acceptance_criteria).0 acceptance;
          same_constraints = (is_mutation-false _ mission.constraints).0 constraints;
          acyclic =
              (has_cycle-false (has_cycle candidate.steps) (has_cycle_iff candidate.steps)).0 cycle;
          closed = (unknown_references-nil candidate.steps).0 ((not-is_empty-false _).0 unknown);
          steps_allowed = steps;
        }

    PlanAllowed-validate_plan :
        PlanAllowed digest resolver mission candidate
        → validate_plan digest resolver mission candidate ≡ []
    unfolding validate_plan
    PlanAllowed-validate_plan p = (validate_steps-nil digest resolver mission candidate.steps _).1 (
      (reject_when_twice-nil _ _ _ _ _).1 (
        (reject_when_twice-nil _ _ _ _ []).1 (
          refl,
          (is_mutation-false _ mission.acceptance_criteria).1 p.same_acceptance,
          (is_mutation-false _ mission.constraints).1 p.same_constraints,
        ),
        (has_cycle-false (has_cycle candidate.steps) (has_cycle_iff candidate.steps)).1 p.acyclic,
        (not-is_empty-false _).1 ((unknown_references-nil candidate.steps).1 p.closed),
      ),
      p.steps_allowed,
    )

  -- The validator accepts a candidate exactly when the candidate is an allowed plan: it is for
  -- this Mission, has a step, keeps acceptance criteria and constraints up to order, has an acyclic
  -- dependency graph without unknown steps, and every step stays within the Mission's scope and the
  -- catalog's contract, grants itself nothing, reuses no approval of another effect and bypasses no
  -- module owner.
  pub validate_iff :
      (mission : Mission) (candidate : PlanCandidate)
      → ((validate digest resolver mission candidate).valid ≡ true)
        ↔ PlanAllowed digest resolver mission candidate
  unfolding validate
  validate_iff mission candidate = elim (Bool-cases (candidate.mission_id == mission.mission_id)) [
    | inr other ↦ (
      λ h. absurd (reject-build _ [] (rw other at h)),
      λ p. cc ((==_iff candidate.mission_id mission.mission_id).1 p.same_mission),
    )
    | inl same ↦ elim (Bool-cases (is_empty candidate.steps)) [
      | inl empty ↦ (
        λ h. absurd (reject-build _ [] (simp (same, empty) at h)),
        λ p. cc ((is_empty-false candidate.steps).1 p.some_step),
      )
      | inr full ↦ (
        λ h.
            validate_plan-PlanAllowed mission candidate
              ((==_iff candidate.mission_id mission.mission_id).0 same)
              ((is_empty-false candidate.steps).0 full)
              ((build-valid _).0 (simp (same, full) at h)),
        λ p. simp (same, full) ((build-valid _).1 (PlanAllowed-validate_plan mission candidate p)),
      )
    ]
  ]
