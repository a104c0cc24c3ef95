-- ===== src/Mission/Policy/Spec/Approvals.antt =====
-- The approval checks of a step, and with them the whole of validateStep.
use ouroboros_runtime.Base.{
  true, ◌≡◌, ◌↔◌, inl, inr, Option, none, some, List, [], ◌∷◌, is_empty, All, find?, contains,
  contains-In, In-contains, ◌==◌, ==_iff, Bool-cases, Option-cases, &&-true,
}
use ouroboros_runtime.Base.Text.{Text, text_eq}
use ouroboros_runtime.Mission.Contracts.{
  Mission, PlanStep, CapabilityContract, StepApprovalRequirement, ApprovalRequirement,
  EffectFingerprintInput, PolicyRejectionCode, effect_class_eq,
}
use ouroboros_runtime.Mission.Policy.Decision.{
  Codes, reject-ne-nil, reject_when, reject_when-nil, reject_when_twice-nil,
}
use ouroboros_runtime.Mission.Policy.Validate.{
  step_fingerprint, scope_ok, validate_approval, validate_known_step, validate_step, validate_steps,
}
use ouroboros_runtime.Mission.Policy.Spec.{
  ScopeMatches, ApprovalAllowed, Approved, KnownStepAllowed, StepAllowed,
}
use ouroboros_runtime.Mission.Policy.Spec.Steps.{
  is_empty-false, not-false, not-contains-false, not_==-false, validate_input_refs-nil,
  validate_module_ownership-nil,
}

module _ (digest : EffectFingerprintInput → Text) where
  pub scope_ok_iff :
      (req : ApprovalRequirement) (step : PlanStep)
      → (scope_ok digest req step ≡ true) ↔ ScopeMatches digest req step
  unfolding scope_ok
  scope_ok_iff req step =
      let d = req.scope_descriptor in
      (
        λ h.
            let (rest, c) = &&-true _ (d.effect_fingerprint == step_fingerprint digest step) h in
            let (a, b) = &&-true _ (d.effect_class == step.effect_class) rest in
            record {
              same_capability = (==_iff d.capability_id step.capability_requirement).0 a;
              same_effect = (==_iff d.effect_class step.effect_class).0 b;
              same_fingerprint = (==_iff d.effect_fingerprint (step_fingerprint digest step)).0 c;
            },
        λ m. simp (
          (==_iff d.capability_id step.capability_requirement).1 m.same_capability,
          (==_iff d.effect_class step.effect_class).1 m.same_effect,
          (==_iff d.effect_fingerprint (step_fingerprint digest step)).1 m.same_fingerprint,
        ),
      )

  module _ (mission : Mission) (step : PlanStep) where
    validate_approval-nil :
        (req : StepApprovalRequirement) (codes : Codes)
        → (validate_approval digest mission step req codes ≡ [])
          ↔ ((codes ≡ []) × ApprovalAllowed digest mission step req)
    unfolding validate_approval
    validate_approval-nil req codes = elim (Bool-cases (is_empty req.approval_id)) [
      | inl empty ↦ (
        λ h.
            let (e, a) = (reject_when-nil _ _ codes).0 (simp empty at h) in
            (
              e,
              record {
                no_grant = a;
                same_scope = λ r full f. cc ((is_empty-false req.approval_id).1 full);
              },
            ),
        λ h. simp empty ((reject_when-nil _ _ codes).1 (h.0, h.1.no_grant)),
      )
      | inr full ↦
          elim (Option-cases
            (find? (λ r. r.approval_id == req.approval_id) mission.approval_requirements)) [
              | inl absent ↦ (
                λ h.
                    let (e, a) = (reject_when-nil _ _ codes).0 (simp (full, absent) at h) in
                    (e, record { no_grant = a; same_scope = λ r _ f. cc }),
                λ h. simp (full, absent) ((reject_when-nil _ _ codes).1 (h.0, h.1.no_grant)),
              )
              | inr (old, found) ↦ (
                λ h.
                    let (e, a, b) =
                      (reject_when_twice-nil _ _ _ _ codes).0 (simp (full, found) at h) in
                    (
                      e,
                      record {
                        no_grant = a;
                        same_scope = λ r _ f.
                            let same : old ≡ r = cc in
                            rw (← same) ((scope_ok_iff old step).0 ((not-false _).0 b));
                      },
                    ),
                λ h.
                    simp (full, found)
                      ((reject_when_twice-nil _ _ _ _ codes).1 (
                        h.0,
                        h.1.no_grant,
                        (not-false _).1 (
                            (scope_ok_iff old step).1
                              (h.1.same_scope old ((is_empty-false req.approval_id).0 full) found)),
                      )),
              )
            ]
    ]

    approval-nil :
        (req : Option StepApprovalRequirement) (contract : CapabilityContract) (codes : Codes)
        → (elim req as (λ _. Codes) [
          | none ↦ reject_when contract.requires_approval PolicyRejectionCode.approval_missing codes
          | some r ↦ validate_approval digest mission step r codes
        ]
            ≡ [])
          ↔ ((codes ≡ []) × Approved digest mission step contract req)
    approval-nil none contract codes = reject_when-nil _ _ codes
    approval-nil (some r) contract codes = validate_approval-nil r codes

    pub validate_known_step-nil :
        (contract : CapabilityContract) (codes : Codes)
        → (validate_known_step digest mission step contract codes ≡ [])
          ↔ ((codes ≡ []) × KnownStepAllowed digest mission step contract)
    unfolding validate_known_step
    validate_known_step-nil contract codes =
        let classes = mission.allowed_capability_scope.allowed_effect_classes in
        (
          λ h.
              let (before_owners, o) =
                (validate_module_ownership-nil mission contract step.input_refs _).0 h in
              let (before_refs, r) =
                (validate_input_refs-nil mission contract step.input_refs _).0 before_owners in
              let (before_approval, a) =
                (approval-nil step.approval_requirement contract _).0 before_refs in
              let (e, allowed, cataloged) =
                (reject_when_twice-nil _ _ _ _ codes).0 before_approval in
              (
                e,
                record {
                  effect_allowed = (not-contains-false step.effect_class classes).0 allowed;
                  effect_cataloged =
                      (not_==-false contract.effect_class step.effect_class).0 cataloged;
                  approved = a;
                  refs = r;
                  owners = o;
                },
              ),
          λ h.
              let k = h.1 in
              (validate_module_ownership-nil mission contract step.input_refs _).1 (
                (validate_input_refs-nil mission contract step.input_refs _).1 (
                  (approval-nil step.approval_requirement contract _).1 (
                    (reject_when_twice-nil _ _ _ _ codes).1 (
                      h.0,
                      (not-contains-false step.effect_class classes).1 k.effect_allowed,
                      (not_==-false contract.effect_class step.effect_class).1 k.effect_cataloged,
                    ),
                    k.approved,
                  ),
                  k.refs,
                ),
                k.owners,
              ),
        )

module _ (digest : EffectFingerprintInput → Text) (resolver : Text → Option CapabilityContract)
    (mission : Mission) where
  validate_step-nil :
      (step : PlanStep) (codes : Codes)
      → (validate_step digest resolver mission step codes ≡ [])
        ↔ ((codes ≡ []) × StepAllowed digest resolver mission step)
  unfolding validate_step
  validate_step-nil step codes =
      let ids = mission.allowed_capability_scope.capability_ids in
      let capability = step.capability_requirement in
      elim (Bool-cases (contains capability ids)) [
        | inr out ↦ (
          λ h. absurd (reject-ne-nil _ codes (rw out at h)),
          λ h. cc (In-contains capability ids h.1.in_scope),
        )
        | inl inside ↦ elim (Option-cases (resolver capability)) [
          | inl unknown ↦ (
            λ h. absurd (reject-ne-nil _ codes (simp (inside, unknown) at h)),
            λ h. cc (h.1.known),
          )
          | inr (contract, known) ↦ (
            λ h.
                let (e, k) =
                  (validate_known_step-nil digest mission step contract codes).0
                    (simp (inside, known) at h) in
                (
                  e,
                  record {
                    in_scope = contains-In capability ids inside;
                    contract = contract;
                    known = known;
                    allowed = k;
                  },
                ),
            λ h.
                let same : h.1.contract ≡ contract = cc (h.1.known) in
                simp (inside, known)
                  ((validate_known_step-nil digest mission step contract codes).1
                    (h.0, rw same at h.1.allowed)),
          )
        ]
      ]

  pub validate_steps-nil :
      (steps : List PlanStep) (codes : Codes)
      → (validate_steps digest resolver mission steps codes ≡ [])
        ↔ ((codes ≡ []) × All (StepAllowed digest resolver mission) steps)
  unfolding validate_steps
  validate_steps-nil [] codes = (λ h. (h, tt), λ h. h.0)
  validate_steps-nil (s ∷ ss) codes = (
    λ h.
        let (first, later) =
          (validate_steps-nil ss (validate_step digest resolver mission s codes)).0 h in
        let (before, here) = (validate_step-nil s codes).0 first in (before, (here, later)),
    λ h.
        (validate_steps-nil ss (validate_step digest resolver mission s codes)).1
          ((validate_step-nil s codes).1 (h.0, h.1.0), h.1.1),
  )
