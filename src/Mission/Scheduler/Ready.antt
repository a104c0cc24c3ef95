-- ===== src/Mission/Scheduler/Ready.antt =====
-- The steps that cli/src/mission/mission-scheduler.ts takes for ready are those that may run: nothing
-- was tried for their effect, and what they depend on is done.
use ouroboros_runtime.Base.{
  &&-true, ◌≡◌, ◌≢◌, refl, subst, sym, ◌∙◌, ◌↔◌, inl, inr, Bool, true, false, not, ◌&&◌, ◌||◌, none,
  some, List, [], ◌∷◌, map, any, any-false_iff, any-In, In-any, if◌then◌else◌, ◌==◌, ==_iff,
  contains, All, In, Option-cases, arith,
}
use ouroboros_runtime.Base.Text.{Text, text, text_eq, starts_with}
use ouroboros_runtime.Mission.Contracts.{
  CapabilityInvocation, EffectFingerprintInput, InvocationStatus, PlanStep, status_is,
}
use ouroboros_runtime.Mission.Policy.Validate.{step_fingerprint}
use ouroboros_runtime.Mission.Scheduler.Lasts.{
  IsLast, last_with-IsLast, last_with-eq-some, IsLast-In, In-IsLast,
}
use ouroboros_runtime.Mission.Scheduler.{
  InvocationSchedulingFact, last_with, claims, completes, bars, effect_of, scheduling_fact,
  get_invocation_scheduling_facts, completed_effects, is_open_dependency, is_ready_step,
}

not-false : (b : Bool) → not b ≡ false → b ≡ true
not-false b h = ground arith

and-true : (a b : Bool) → a ≡ true → b ≡ true → (a && b) ≡ true
and-true a b h k = ground arith

not-both : (a b : Bool) → (a ≡ true → b ≡ true → ⊥) → (a && b) ≡ false
not-both false b k = refl
not-both true false k = refl
not-both true true k = absurd (k refl refl)

not-all : (a b c : Bool) → (a ≡ true → b ≡ true → c ≡ false) → (a && (b && c)) ≡ false
not-all false b c k = refl
not-all true false c k = refl
not-all true true c k = k refl refl

selected_iff :
    (a b c : Bool)
    → ((if a || b then false else not c) ≡ true) ↔ ((a ≡ false) × (b ≡ false) × (c ≡ false))
selected_iff a b c = ground arith

module _ (digest : EffectFingerprintInput → Text) (rows : List CapabilityInvocation)
    (mission_id : Text) where
  abbrev fingerprint : PlanStep → Text
  fingerprint = step_fingerprint digest

  last_with-facts :
      (effect : PlanStep → Text) (k : Text) (steps : List PlanStep)
      → last_with
          (λ (f : InvocationSchedulingFact). f.step_id)
          k
          (map (scheduling_fact digest rows mission_id effect) steps)
        ≡ elim (last_with (λ (s : PlanStep). s.step_id) k steps) [
          | none ↦ none
          | some s ↦ some (scheduling_fact digest rows mission_id effect s)
        ]
  unfolding last_with
  last_with-facts effect k [] = refl
  last_with-facts effect k (s ∷ steps) = ground (arith, last_with-facts effect k steps)

  -- A fingerprint is among the completed effects when a row completes it and a step of the plan has it.
  contains-completed :
      (effect : PlanStep → Text) (t : Text) (steps : List PlanStep)
      → contains t (completed_effects (map (scheduling_fact digest rows mission_id effect) steps))
        ≡ any (λ s. effect s == t && any (completes mission_id (effect s)) rows) steps
  unfolding completed_effects contains
  contains-completed effect t [] = refl
  contains-completed effect t (s ∷ steps) = ground (arith, contains-completed effect t steps)

  -- The last step with an id has its own effect.
  effect_of-IsLast :
      (s : PlanStep) (steps : List PlanStep)
      → IsLast (λ (u : PlanStep). u.step_id) s steps
      → effect_of digest steps s ≡ fingerprint s
  unfolding effect_of
  effect_of-IsLast s steps last =
      rw (effect_of, last_with-IsLast (λ (u : PlanStep). u.step_id) s steps last) refl

  completes-true :
      (r : CapabilityInvocation) (t : Text)
      → completes mission_id t r ≡ true
      → ((r.mission_id ≡ mission_id) × (r.effect_fingerprint ≡ t))
        × (status_is r.status InvocationStatus.completed ≡ true)
  completes-true r t h =
      let (claimed, ended) =
        &&-true (claims mission_id t r) (status_is r.status InvocationStatus.completed) h in
      let (m, f) = &&-true (r.mission_id == mission_id) (r.effect_fingerprint == t) claimed in
      (((==_iff r.mission_id mission_id).0 m, (==_iff r.effect_fingerprint t).0 f), ended)

  true-completes :
      (r : CapabilityInvocation) (t : Text)
      → r.mission_id ≡ mission_id
      → r.effect_fingerprint ≡ t
      → status_is r.status InvocationStatus.completed ≡ true
      → completes mission_id t r ≡ true
  true-completes r t m f ended =
      rw ((==_iff r.mission_id mission_id).1 m, (==_iff r.effect_fingerprint t).1 f) ended

  module _ (steps : List PlanStep) where
    -- The dependency is a step of the plan, the last one with its id, and some row of the Mission shows its
    -- effect completed.
    abbrev pub IsDone : Text → Type 0
    IsDone dependency_id =
        (s : PlanStep) × IsLast (λ (u : PlanStep). u.step_id) s steps
        × (s.step_id ≡ dependency_id)
        × ((r : CapabilityInvocation) × In r rows
            × (r.mission_id ≡ mission_id)
            × (r.effect_fingerprint ≡ fingerprint s)
            × (status_is r.status InvocationStatus.completed ≡ true))

    open-IsDone :
        (d : Text)
        → is_open_dependency digest steps
            (map (scheduling_fact digest rows mission_id (effect_of digest steps)) steps)
            d
          ≡ false
        → IsDone d
    unfolding is_open_dependency
    open-IsDone d h = elim (Option-cases (last_with (λ (s : PlanStep). s.step_id) d steps)) [
      | inl e ↦ cc (rw (is_open_dependency, e) at h)
      | inr (s, e) ↦
          let (listed, named) = last_with-eq-some (λ (s : PlanStep). s.step_id) d steps e in
          let found : any
                (λ u.
                  effect_of digest steps u == fingerprint s
                  && any (completes mission_id (effect_of digest steps u)) rows)
                steps
              ≡ true =
            sym (contains-completed (effect_of digest steps) (fingerprint s) steps)
            ∙ not-false _ (rw (is_open_dependency, e) at h) in
          let (u, _, both) = any-In _ steps found in
          let (same, done) =
            &&-true (effect_of digest steps u == fingerprint s)
              (any (completes mission_id (effect_of digest steps u)) rows) both in
          let (r, stored, completed) = any-In _ rows done in
          let (row, ended) = completes-true r (effect_of digest steps u) completed in
          (
            s,
            listed,
            named,
            (
              r,
              stored,
              row.0,
              row.1 ∙ (==_iff (effect_of digest steps u) (fingerprint s)).0 same,
              ended,
            ),
          )
    ]

    IsDone-open :
        (d : Text)
        → IsDone d
        → is_open_dependency digest steps
            (map (scheduling_fact digest rows mission_id (effect_of digest steps)) steps)
            d
          ≡ false
    unfolding is_open_dependency
    IsDone-open d (s, listed, named, (r, stored, m, f, ended)) =
        let found =
          subst (λ k. last_with (λ (u : PlanStep). u.step_id) k steps ≡ some s) named
            (last_with-IsLast (λ (u : PlanStep). u.step_id) s steps listed) in
        let done =
          In-any (completes mission_id (fingerprint s)) rows r stored
            (true-completes r (fingerprint s) m f ended) in
        let self = (==_iff (fingerprint s) (fingerprint s)).1 refl in
        let among =
          In-any
            (λ u.
              effect_of digest steps u == fingerprint s
              && any (completes mission_id (effect_of digest steps u)) rows)
            steps s (IsLast-In (λ (u : PlanStep). u.step_id) s steps listed)
            (rw (effect_of-IsLast s steps listed, self, done) refl) in
        rw
          (
            is_open_dependency,
            found,
            contains-completed (effect_of digest steps) (fingerprint s) steps,
            among,
          )
          refl

    -- The step may run now: no row of the Mission has its effect, none bars it for good, and all that it
    -- depends on is done. The effect is that of the last step with its id, which is the step itself where
    -- no id repeats.
    pub record IsReady (step : PlanStep) : Type 0 where
      pub judged : PlanStep
      pub is_judged : IsLast (λ (u : PlanStep). u.step_id) judged steps
      pub same_id : judged.step_id ≡ step.step_id
      pub untried :
          All (λ r. r.mission_id ≡ mission_id → r.effect_fingerprint ≢ fingerprint judged) rows
      pub unbarred :
          All
            (λ r.
              r.mission_id ≡ mission_id
              → r.step_id ≡ judged.step_id
              → starts_with r.effect_fingerprint (text "legacy:") ≡ false)
            rows
      pub dependencies : All IsDone step.dependency_ids

    untried_iff :
        (step : PlanStep)
        → (any (claims mission_id (fingerprint step)) rows ≡ false)
          ↔ All (λ r. r.mission_id ≡ mission_id → r.effect_fingerprint ≢ fingerprint step) rows
    untried_iff step =
        any-false_iff (claims mission_id (fingerprint step))
          (λ r. r.mission_id ≡ mission_id → r.effect_fingerprint ≢ fingerprint step) rows
          λ r. (
            λ h m f. cc (
              h,
              and-true _ _ ((==_iff r.mission_id mission_id).1 m)
                  ((==_iff r.effect_fingerprint (fingerprint step)).1 f),
            ),
            λ k. not-both _ _ λ m f.
                k ((==_iff r.mission_id mission_id).0 m)
                  ((==_iff r.effect_fingerprint (fingerprint step)).0 f),
          )

    unbarred_iff :
        (step : PlanStep)
        → (any (bars mission_id step.step_id) rows ≡ false)
          ↔ All
              (λ r.
                r.mission_id ≡ mission_id
                → r.step_id ≡ step.step_id
                → starts_with r.effect_fingerprint (text "legacy:") ≡ false)
              rows
    unbarred_iff step =
        any-false_iff (bars mission_id step.step_id)
          (λ r.
            r.mission_id ≡ mission_id
            → r.step_id ≡ step.step_id
            → starts_with r.effect_fingerprint (text "legacy:") ≡ false)
          rows
          λ r. (
            λ h m n.
                rw ((==_iff r.mission_id mission_id).1 m, (==_iff r.step_id step.step_id).1 n) at h,
            λ k. not-all _ _ _ λ m n.
                k ((==_iff r.mission_id mission_id).0 m) ((==_iff r.step_id step.step_id).0 n),
          )

    fact-found :
        (step judged : PlanStep)
        → IsLast (λ (u : PlanStep). u.step_id) judged steps
        → judged.step_id ≡ step.step_id
        → last_with
            (λ (f : InvocationSchedulingFact). f.step_id)
            step.step_id
            (map (scheduling_fact digest rows mission_id (effect_of digest steps)) steps)
          ≡ some (scheduling_fact digest rows mission_id (effect_of digest steps) judged)
    fact-found step judged last same =
        let found =
          subst (λ k. last_with (λ (u : PlanStep). u.step_id) k steps ≡ some judged) same
            (last_with-IsLast (λ (u : PlanStep). u.step_id) judged steps last) in
        rw (last_with-facts (effect_of digest steps) step.step_id steps, found) refl

    -- The tests of the selection, with the fact of `judged`.
    is_ready_step-judged :
        (step judged : PlanStep)
        → IsLast (λ (u : PlanStep). u.step_id) judged steps
        → judged.step_id ≡ step.step_id
        → (is_ready_step digest steps
              (get_invocation_scheduling_facts digest rows mission_id steps)
              step
            ≡ true)
          ↔ ((any (claims mission_id (fingerprint judged)) rows ≡ false)
              × (any (bars mission_id judged.step_id) rows ≡ false)
              × All IsDone step.dependency_ids)
    unfolding is_ready_step get_invocation_scheduling_facts
    is_ready_step-judged step judged last same =
        let found = fact-found step judged last same in
        let own = effect_of-IsLast judged steps last in
        let opens =
          is_open_dependency digest steps
            (map (scheduling_fact digest rows mission_id (effect_of digest steps)) steps) in
        let split =
          selected_iff (any (claims mission_id (fingerprint judged)) rows)
            (any (bars mission_id judged.step_id) rows) (any opens step.dependency_ids) in
        let done =
          any-false_iff opens IsDone step.dependency_ids (λ d. (open-IsDone d, IsDone-open d)) in
        (
          λ h. let (a, b, c) = split.0 (rw (is_ready_step, found, own) at h) in (a, b, done.0 c),
          λ r. rw (is_ready_step, found, own) (split.1 (r.0, r.1, done.1 r.2)),
        )

    -- With the facts of the store, the selection takes a step of any plan exactly when it is ready, also
    -- where the plan repeats a step id: then by the effect of the last step with the id.
    pub is_ready_step_iff :
        (step : PlanStep)
        → In step steps
        → (is_ready_step digest steps
              (get_invocation_scheduling_facts digest rows mission_id steps)
              step
            ≡ true)
          ↔ IsReady step
    is_ready_step_iff step listed = (
      λ h.
          let (judged, last, same) = In-IsLast (λ (u : PlanStep). u.step_id) step steps listed in
          let (a, b, c) = (is_ready_step-judged step judged last same).0 h in
          record {
            judged = judged;
            is_judged = last;
            same_id = same;
            untried = (untried_iff judged).0 a;
            unbarred = (unbarred_iff judged).0 b;
            dependencies = c;
          },
      λ r. (is_ready_step-judged step r.judged r.is_judged r.same_id).1 (
        (untried_iff r.judged).1 r.untried,
        (unbarred_iff r.judged).1 r.unbarred,
        r.dependencies,
      ),
    )
