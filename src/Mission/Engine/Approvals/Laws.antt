-- ===== src/Mission/Engine/Approvals/Laws.antt =====
-- What acceptPlan of cli/src/mission/mission-engine.ts does to the approvals of a Mission.
use ouroboros_runtime.Base.{
  Bool, true, false, not, ◌≡◌, refl, sym, ap, ◌∙◌, List, [], ◌∷◌, ◌++◌, all, find?, append_assoc,
  append-nil, All, All-append, all-All, Result, ok, ◌>>◌, reject_if, >>=-eq-ok, Option-cases,
  Bool-cases, inl, inr, ◌⊎◌, ◌==◌,
}
use ouroboros_runtime.Base.Text.{text_eq}
use ouroboros_runtime.Mission.Contracts.{
  Mission, MissionState, ApprovalRequirement, PlanStep, PlanRevision, StepApprovalRequirement,
  is_terminal,
}
use ouroboros_runtime.Mission.Policy.Validate.{scope_ok}
use ouroboros_runtime.Mission.Engine.Services.{Services, EngineError}
use ouroboros_runtime.Mission.Engine.Approvals.{
  has_id, merge_approval, merge_approvals, accept_plan, proposed_requirement, merge_requirement,
  is_proposed,
}

abbrev pub NotGranted : ApprovalRequirement → Type 0
NotGranted r = r.granted ≡ false

passed :
    (a b c : Bool) (e f g : EngineError) (k : Result EngineError Mission) {x : Mission}
    → (reject_if a e >> reject_if b f >> reject_if c g >> k) ≡ ok x
    → k ≡ ok x
passed true b c e f g k h = absurd (cc h)
passed false true c e f g k h = absurd (cc h)
passed false false true e f g k h = absurd (cc h)
passed false false false e f g k h = h

module _ (env : Services) where
  -- The list grows at its end, by requirements that are not granted.
  abbrev Grows : List ApprovalRequirement → List ApprovalRequirement → Type 0
  Grows before after =
      (added : List ApprovalRequirement) × (after ≡ before ++ added) × All NotGranted added

  merge_requirement-Grows :
      (approvals : List ApprovalRequirement) (step : PlanStep) (req : StepApprovalRequirement)
      {merged : List ApprovalRequirement}
      → merge_requirement env approvals step req ≡ ok merged
      → Grows approvals merged
  unfolding merge_requirement proposed_requirement
  merge_requirement-Grows approvals step req {merged} h =
      elim (Option-cases (find? (has_id req.approval_id) approvals)) [
        | inl f ↦
            let same : merged ≡ approvals ++ proposed_requirement env step req ∷ [] =
              cc (rw (f, merge_requirement) at h) in
            (proposed_requirement env step req ∷ [], same, (refl, tt))
        | inr (existing, f) ↦
            let h1 = rw (f, merge_requirement) at h in
            elim (Bool-cases (scope_ok env.digest existing step)) [
              | inr other ↦ absurd (cc (simp other at h1))
              | inl fits ↦
                  let same : merged ≡ approvals = cc (simp fits at h1) in
                  ([], same ∙ sym (append-nil approvals), tt)
            ]
      ]

  merge_approval-Grows :
      (approvals : List ApprovalRequirement) (step : PlanStep) {merged : List ApprovalRequirement}
      → merge_approval env approvals step ≡ ok merged
      → Grows approvals merged
  unfolding merge_approval
  merge_approval-Grows approvals step {merged} h = elim (Option-cases step.approval_requirement) [
    | inl e ↦
        let same : merged ≡ approvals = cc (rw (e, merge_approval) at h) in
        ([], same ∙ sym (append-nil approvals), tt)
    | inr (req, e) ↦ merge_requirement-Grows approvals step req (rw (e, merge_approval) at h)
  ]

  merge_approvals-Grows :
      (approvals : List ApprovalRequirement) (steps : List PlanStep)
      {merged : List ApprovalRequirement}
      → merge_approvals env approvals steps ≡ ok merged
      → Grows approvals merged
  unfolding merge_approvals
  merge_approvals-Grows approvals [] {merged} h =
      let same : merged ≡ approvals = cc h in ([], same ∙ sym (append-nil approvals), tt)
  merge_approvals-Grows approvals (s ∷ ss) {merged} h =
      let (middle, first, rest) = >>=-eq-ok (merge_approval env approvals s) _ h in
      let (xs, e, p) = merge_approval-Grows approvals s first in
      let (ys, f, q) = merge_approvals-Grows middle ss rest in
      (
        xs ++ ys,
        f ∙ (ap (λ m. m ++ ys) e ∙ append_assoc approvals xs ys),
        All-append NotGranted xs ys p q,
      )

  -- Accepting a plan keeps every approval as it is and adds only ungranted ones behind them. The Mission
  -- becomes ready only when each of its approvals is granted, and otherwise waits for approval.
  pub accept_plan-eq-ok :
      (mission : Mission) (revision : PlanRevision) {next : Mission}
      → accept_plan env mission revision ≡ ok next
      → ((added : List ApprovalRequirement) × (next.approval_requirements
            ≡ mission.approval_requirements ++ added)
          × All NotGranted added)
        × (((next.state ≡ MissionState.ready)
              × All (λ (r : ApprovalRequirement). r.granted ≡ true) next.approval_requirements)
            ⊎ ((next.state ≡ MissionState.waiting_for_approval)
                × (all (λ (r : ApprovalRequirement). r.granted) next.approval_requirements
                    ≡ false)))
  unfolding accept_plan
  accept_plan-eq-ok mission revision {next} h =
      let h1 =
        passed (is_terminal mission.state) (not (revision.mission_id == mission.mission_id))
          (not (is_proposed revision.status)) EngineError.terminal_mission
          EngineError.revision_of_other_mission EngineError.revision_not_proposed _ h in
      let (merged, m, h2) =
        >>=-eq-ok (merge_approvals env mission.approval_requirements revision.steps) _ h1 in
      let (added, e, ungranted) =
        merge_approvals-Grows mission.approval_requirements revision.steps m in
      let same : next.approval_requirements ≡ merged = cc h2 in
      (
        (added, same ∙ e, ungranted),
        elim (Bool-cases (all (λ (r : ApprovalRequirement). r.granted) merged)) [
          | inl t ↦
              let state : next.state ≡ MissionState.ready = cc (simp t at h2) in
              inl (state, all-All _ next.approval_requirements (rw same t))
          | inr f ↦
              let state : next.state ≡ MissionState.waiting_for_approval = cc (simp f at h2) in
              inr (state, rw same f)
        ],
      )
