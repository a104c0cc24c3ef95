-- ===== src/Mission/Policy/Graph/Laws.antt =====
-- What the two results of findCycleOrUnknownSteps mean.
use ouroboros_runtime.Base.{
  ◌≡◌, ◌↔◌, refl, inl, inr, true, false, some, List, [], ◌∷◌, ◌++◌, All, All-In, In, contains,
  contains-In, In-contains, Bool-cases,
}
use ouroboros_runtime.Base.Text.{Text, text_eq}
use ouroboros_runtime.Mission.Contracts.{PlanStep}
use ouroboros_runtime.Mission.Policy.Graph.{
  Search, step_ids, search_steps, has_cycle, unknown_in, unknown_from, unknown_references,
}
use ouroboros_runtime.Mission.Policy.Graph.Order.{
  Walk, HasCycle, IsTopological, IsTopological-no_cycle,
}
use ouroboros_runtime.Mission.Policy.Graph.Correct.{deps_of-In, search_steps_ends}

-- The search over the dependency graph always ends within the fuel that it is given.
pub search_steps_total : (steps : List PlanStep) → (t : Search) × (search_steps steps ≡ some t)
search_steps_total steps = let (t, run, _, _, _) = search_steps_ends steps in (t, run)

-- If no cycle is reported, there is an order of texts that holds every step id, in which each
-- dependency stands behind the step that needs it.
pub has_cycle-order :
    (steps : List PlanStep)
    → has_cycle steps ≡ false
    → (order : List Text) × IsTopological steps order × All (λ i. In i order) (step_ids steps)
unfolding has_cycle
has_cycle-order steps h =
    let (t, run, real, order, all) = search_steps_ends steps in
    let none_found : t.cycle ≡ false = rw (run, has_cycle) at h in
    (t.visited, order none_found, all none_found)

Walk-source : (steps : List PlanStep) {a b : Text} → Walk steps a b → In a (step_ids steps)
Walk-source steps (Walk.edge {a} {b} e) = deps_of-In steps a b e
Walk-source steps (Walk.then {a} {b} e w) = deps_of-In steps a b e

HasCycle-has_cycle : (steps : List PlanStep) → HasCycle steps → has_cycle steps ≡ true
HasCycle-has_cycle steps (a, w) = elim (Bool-cases (has_cycle steps)) [
  | inl h ↦ h
  | inr h ↦
      let (order, sorted, all) = has_cycle-order steps h in
      let listed = All-In (λ i. In i order) (step_ids steps) a all (Walk-source steps w) in
      absurd (IsTopological-no_cycle steps order a sorted listed w)
]

-- The search reports a cycle exactly when some id reaches itself along dependency edges.
pub has_cycle_iff : (steps : List PlanStep) → (has_cycle steps ≡ true) ↔ HasCycle steps
unfolding has_cycle
has_cycle_iff steps =
    let (t, run, real, order, all) = search_steps_ends steps in
    (λ h. real (rw (run, has_cycle) at h), HasCycle-has_cycle steps)

-- Every dependency of every step names a step.
abbrev pub AllKnown : List PlanStep → List PlanStep → Type 0
AllKnown steps = All (λ s. All (λ d. In d (step_ids steps)) s.dependency_ids)

unknown_in-nil :
    (steps : List PlanStep) (ds : List Text)
    → (unknown_in steps ds ≡ []) ↔ All (λ d. In d (step_ids steps)) ds
unfolding unknown_in
unknown_in-nil steps [] = (λ _. tt, λ _. refl)
unknown_in-nil steps (d ∷ ds) = elim (Bool-cases (contains d (step_ids steps))) [
  | inl k ↦ (
    λ h. (contains-In d (step_ids steps) k, (unknown_in-nil steps ds).0 (simp k at h)),
    λ h. simp k ((unknown_in-nil steps ds).1 h.1),
  )
  | inr k ↦ (λ h. cc (simp k at h), λ h. cc (In-contains d (step_ids steps) h.0))
]

append-eq-nil : {A : Type 0} (xs ys : List A) → xs ++ ys ≡ [] → (xs ≡ []) × (ys ≡ [])
append-eq-nil [] ys h = (refl, h)
append-eq-nil (x ∷ xs) ys h = cc

unknown_from-nil : (steps ss : List PlanStep) → (unknown_from steps ss ≡ []) ↔ AllKnown steps ss
unfolding unknown_from
unknown_from-nil steps [] = (λ _. tt, λ _. refl)
unknown_from-nil steps (s ∷ ss) = (
  λ h.
      let (here, later) =
        append-eq-nil (unknown_in steps s.dependency_ids) (unknown_from steps ss) h in
      ((unknown_in-nil steps s.dependency_ids).0 here, (unknown_from-nil steps ss).0 later),
  λ h. rw ((unknown_in-nil steps s.dependency_ids).1 h.0) ((unknown_from-nil steps ss).1 h.1),
)

-- No unknown reference is reported exactly when every dependency of every step names a step.
pub unknown_references-nil :
    (steps : List PlanStep) → (unknown_references steps ≡ []) ↔ AllKnown steps steps
unfolding unknown_references
unknown_references-nil steps = unknown_from-nil steps steps
