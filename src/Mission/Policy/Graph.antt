-- ===== src/Mission/Policy/Graph.antt =====
-- findCycleOrUnknownSteps of cli/src/mission/policy.ts: the search over the dependency edges.
pub mod Order
pub mod Correct
pub mod Laws
use ouroboros_runtime.Base.{
  ℕ, zero, suc, ◌+◌, Bool, true, false, not, ◌||◌, Option, none, some, List, [], ◌∷◌, ◌++◌, map,
  if◌then◌else◌, ◌==◌, find?, keep, contains, length,
}
use ouroboros_runtime.Base.Text.{Text, text_eq}
use ouroboros_runtime.Mission.Contracts.{PlanStep}

-- The closure variables of the search. A `Set` is the list of its members.
pub record Search : Type 0 where
  pub visiting : List Text
  pub visited : List Text
  pub cycle : Bool

abbrev pub step_ids : List PlanStep → List Text
step_ids steps = map (λ s. s.step_id) steps

-- The dependencies of the first step of that id, if there is one.
unfoldable pub deps_of : List PlanStep → Text → List Text
deps_of steps id = elim (find? (λ s. s.step_id == id) steps) [
  | none ↦ []
  | some s ↦ s.dependency_ids
]

-- `set.delete(id)`
unfoldable pub remove : Text → List Text → List Text
remove id [] = []
remove id (x ∷ xs) = let rest = remove id xs in if x == id then rest else x ∷ rest

-- `for (const dep of step.dependencyIds) visit(dep)`
unfoldable pub visit_all : (Text → Search → Option Search) → List Text → Search → Option Search
visit_all f [] s = some s
visit_all f (d ∷ ds) s = elim (f d s) [ none ↦ none | some t ↦ visit_all f ds t ]

-- `visit`, with fuel for the depth of the recursion; `none` means that the fuel ran out.
unfoldable pub visit : List PlanStep → ℕ → Text → Search → Option Search
visit steps zero id s = none
visit steps (suc fuel) id s =
    if s.cycle || contains id s.visited
    then some s
    else if contains id s.visiting
    then some (record s { cycle = true })
    else elim (visit_all (visit steps fuel) (deps_of steps id)
        (record s { visiting = id ∷ s.visiting })) [
          | none ↦ none
          | some t ↦ some (record t { visiting = remove id t.visiting; visited = id ∷ t.visited })
        ]

-- The loop over the steps, which stops at the first cycle.
unfoldable pub visit_roots : (Text → Search → Option Search) → List Text → Search → Option Search
visit_roots f [] s = some s
visit_roots f (r ∷ rs) s = elim (f r s) [
  | none ↦ none
  | some t ↦ if t.cycle then some t else visit_roots f rs t
]

abbrev pub no_search : Search
no_search = record { visiting = []; visited = []; cycle = false }

-- One round of fuel for each step, and one for a dependency that is no step.
unfoldable pub search_steps : List PlanStep → Option Search
search_steps steps = visit_roots (visit steps (suc (length steps))) (step_ids steps) no_search

unfoldable pub has_cycle : List PlanStep → Bool
has_cycle steps = elim (search_steps steps) [ none ↦ true | some s ↦ s.cycle ]

-- The references `step -> dep` to no step, by the dependency alone.
unfoldable pub unknown_in : List PlanStep → List Text → List Text
unknown_in steps [] = []
unknown_in steps (d ∷ ds) =
    let rest = unknown_in steps ds in if contains d (step_ids steps) then rest else d ∷ rest

unfoldable pub unknown_from : List PlanStep → List PlanStep → List Text
unfolding unknown_in
unknown_from steps [] = []
unknown_from steps (s ∷ ss) = unknown_in steps s.dependency_ids ++ unknown_from steps ss

unfoldable pub unknown_references : List PlanStep → List Text
unfolding unknown_from
unknown_references steps = unknown_from steps steps
