-- ===== src/Mission/Policy/Graph/Correct.antt =====
-- What the search of Mission/Policy/Graph.antt finds: with the fuel that it is given it ends, it
-- reports a cycle only where there is one, and otherwise leaves an order of the steps.
use ouroboros_runtime.Base.{
  ℕ, zero, suc, ◌≤◌, ◌<◌, ◌≡◌, refl, ap, ◌∙◌, ◌⊎◌, inl, inr, true, false, not, some, Option, List,
  [], ◌∷◌, length, length-map, keep, keep-le, contains, contains-In, All, All-tabulate, In,
  Bool-cases, ◌==◌, ==_iff, ==_refl, arith,
}
use ouroboros_runtime.Base.Text.{Text, text_eq, text_beq_iff}
use ouroboros_runtime.Mission.Contracts.{PlanStep}
use ouroboros_runtime.Mission.Policy.Graph.{
  Search, no_search, deps_of, remove, step_ids, visit, visit_all, visit_roots, search_steps,
}
use ouroboros_runtime.Mission.Policy.Graph.Order.{Edge, Walk, Walk-snoc, HasCycle, IsTopological}

remove-absent : (id : Text) (xs : List Text) → contains id xs ≡ false → remove id xs ≡ xs
unfolding remove contains
remove-absent id [] h = refl
remove-absent id (x ∷ xs) h = ground (arith, remove-absent id xs)

remove-cons : (id : Text) (xs : List Text) → contains id xs ≡ false → remove id (id ∷ xs) ≡ xs
unfolding remove
remove-cons id xs h = rw (==_refl id) (remove-absent id xs h)

-- How many of the ids are not in `visiting`: the calls that can still nest.
abbrev room : List Text → List Text → ℕ
room ids visiting = length (keep (λ i. not (contains i visiting)) ids)

room-le : (ids : List Text) (id : Text) (v : List Text) → room ids (id ∷ v) ≤ room ids v
unfolding contains
room-le [] id v = omega arith
room-le (i ∷ ids) id v = ground (arith, room-le ids id v)

room-lt :
    (ids : List Text) (id : Text) (v : List Text)
    → In id ids
    → contains id v ≡ false
    → room ids (id ∷ v) < room ids v
unfolding contains
room-lt [] id v m h = elim m [ ]
room-lt (i ∷ ids) id v (inl e) h =
    ground (arith, room-le ids id v, text_beq_iff id i, ap (λ x. contains x v) e)
room-lt (i ∷ ids) id v (inr m) h = ground (arith, room-lt ids id v m h)

pub deps_of-In :
    (steps : List PlanStep) (id d : Text) → In d (deps_of steps id) → In id (step_ids steps)
unfolding deps_of
deps_of-In [] id d m = elim m [ ]
deps_of-In (s ∷ steps) id d m = elim (Bool-cases (s.step_id == id)) [
  | inl t ↦ inl ((==_iff s.step_id id).0 t)
  | inr f ↦ inr (deps_of-In steps id d (rw (f, In) at m))
]

module _ (steps : List PlanStep) where
  -- The ids under visit, the innermost first, are linked by edges.
  abbrev IsStack : List Text → Type 0
  IsStack [] = Unit
  IsStack (x ∷ []) = Unit
  IsStack (x ∷ y ∷ r) = Edge steps y x × IsStack (y ∷ r)

  IsStack-tail : (x : Text) (r : List Text) → IsStack (x ∷ r) → IsStack r
  IsStack-tail x [] h = tt
  IsStack-tail x (y ∷ r) h = h.1

  -- A walk that reaches the innermost id from an id below it.
  IsStack-Walk : (x : Text) (r : List Text) (a : Text) → IsStack (x ∷ r) → In a r → Walk steps a x
  IsStack-Walk x [] a h m = elim m [ ]
  IsStack-Walk x (y ∷ r) a h (inl e) = Walk.edge (rw e at h.0)
  IsStack-Walk x (y ∷ r) a h (inr m) = Walk-snoc steps (IsStack-Walk y r a h.1 m) h.0

  -- What one call of `visit` does to the state of the search.
  record Keeps (s t : Search) : Type 0 where
    same_stack : t.visiting ≡ s.visiting
    real_cycle : t.cycle ≡ true → (s.cycle ≡ true) ⊎ HasCycle steps
    before : t.cycle ≡ false → s.cycle ≡ false
    order : t.cycle ≡ false → IsTopological steps s.visited → IsTopological steps t.visited
    grows : (x : Text) → In x s.visited → In x t.visited

  Keeps-refl : (s : Search) → Keeps s s
  Keeps-refl s = record {
    same_stack = refl;
    real_cycle = λ h. inl h;
    before = λ h. h;
    order = λ h t. t;
    grows = λ x m. m;
  }

  Keeps-trans : {s t u : Search} → Keeps s t → Keeps t u → Keeps s u
  Keeps-trans h k = record {
    same_stack = k.same_stack ∙ h.same_stack;
    real_cycle = λ c. elim (k.real_cycle c) [ inl d ↦ h.real_cycle d | inr w ↦ inr w ];
    before = λ c. h.before (k.before c);
    order = λ c t. k.order c (h.order (k.before c) t);
    grows = λ x m. k.grows x (h.grows x m);
  }

  -- `f` ends on `id` at every state with the stack `v`, and has then visited `id`.
  abbrev Ends : (Text → Search → Option Search) → List Text → Text → Type 0
  Ends f v id =
      (s : Search)
      → s.visiting ≡ v
      → (t : Search) × (f id s ≡ some t) × Keeps s t × (t.cycle ≡ false → In id t.visited)

  visit_all-Ends :
      (f : Text → Search → Option Search) (v ds : List Text) (s : Search)
      → All (Ends f v) ds
      → s.visiting ≡ v
      → (t : Search) × (visit_all f ds s ≡ some t)
        × Keeps s t
        × (t.cycle ≡ false → All (λ d. In d t.visited) ds)
  unfolding visit_all
  visit_all-Ends f v [] s h e = (s, refl, Keeps-refl s, λ c. tt)
  visit_all-Ends f v (d ∷ ds) s h e =
      let (t, run, k, m) = h.0 s e in
      let (u, rest, l, n) = visit_all-Ends f v ds t h.1 (k.same_stack ∙ e) in
      (u, rw (run, visit_all) rest, Keeps-trans k l, λ c. (l.grows d (m (l.before c)), n c))

  -- The state after the loop over the dependencies of `id`, once `id` is put into `visited`.
  finished :
      (id : Text) (s t : Search)
      → contains id s.visiting ≡ false
      → Keeps (record s { visiting = id ∷ s.visiting }) t
      → (t.cycle ≡ false → All (λ d. In d t.visited) (deps_of steps id))
      → Keeps s (record t { visiting = remove id t.visiting; visited = id ∷ t.visited })
  finished id s t fresh k m = record {
    same_stack = rw k.same_stack (remove-cons id s.visiting fresh);
    real_cycle = k.real_cycle;
    before = k.before;
    order = λ c o. (m c, k.order c o);
    grows = λ x n. inr (k.grows x n);
  }

  -- An id that is still under visit closes a cycle.
  closed :
      (id : Text) (v : List Text) (s : Search)
      → IsStack (id ∷ v)
      → s.visiting ≡ v
      → contains id s.visiting ≡ true
      → Keeps s (record s { cycle = true })
  closed id v s h e n = record {
    same_stack = refl;
    real_cycle = λ _. inr (id, IsStack-Walk id v id h (rw e at (contains-In id s.visiting n)));
    before = λ c. cc;
    order = λ c. cc;
    grows = λ x m. m;
  }

  visit_run :
      (fuel : ℕ) (id : Text) (s t : Search)
      → s.cycle ≡ false
      → contains id s.visited ≡ false
      → contains id s.visiting ≡ false
      → visit_all (visit steps fuel) (deps_of steps id) (record s { visiting = id ∷ s.visiting })
        ≡ some t
      → visit steps (suc fuel) id s
        ≡ some (record t { visiting = remove id t.visiting; visited = id ∷ t.visited })
  unfolding visit
  visit_run fuel id s t c m n run = rw run (simp (c, m, n))

  visit-Ends :
      (fuel : ℕ) (id : Text) (v : List Text)
      → room (step_ids steps) v < fuel
      → IsStack (id ∷ v)
      → Ends (visit steps fuel) v id
  unfolding visit
  visit-Ends zero id v r h s e = absurd (omega arith)
  visit-Ends (suc fuel) id v r h s e = elim (Bool-cases s.cycle) [
    | inl c ↦ (s, rw c, Keeps-refl s, λ d. cc)
    | inr c ↦ elim (Bool-cases (contains id s.visited)) [
      | inl m ↦ (s, rw (c, m), Keeps-refl s, λ d. contains-In id s.visited m)
      | inr m ↦ elim (Bool-cases (contains id s.visiting)) [
        | inl n ↦ (record s { cycle = true }, rw (c, m, n), closed id v s h e n, λ d. cc)
        | inr n ↦
            let fresh : contains id v ≡ false = rw e at n in
            let (t, run, k, l) =
              visit_all-Ends (visit steps fuel) (id ∷ v) (deps_of steps id)
                (record s { visiting = id ∷ s.visiting })
                (All-tabulate (Ends (visit steps fuel) (id ∷ v)) (deps_of steps id) λ d dep.
                  visit-Ends fuel d (id ∷ v)
                    (omega (arith, room-lt (step_ids steps) id v (deps_of-In steps id d dep) fresh))
                    (dep, h))
                (ap (◌∷◌ id) e) in
            (
              record t { visiting = remove id t.visiting; visited = id ∷ t.visited },
              visit_run fuel id s t c m n run,
              finished id s t n k l,
              λ d. inl refl,
            )
      ]
    ]
  ]

  visit_roots-Ends :
      (f : Text → Search → Option Search) (rs : List Text) (s : Search)
      → All (Ends f []) rs
      → s.visiting ≡ []
      → (t : Search) × (visit_roots f rs s ≡ some t)
        × Keeps s t
        × (t.cycle ≡ false → All (λ r. In r t.visited) rs)
  unfolding visit_roots
  visit_roots-Ends f [] s h e = (s, refl, Keeps-refl s, λ c. tt)
  visit_roots-Ends f (r ∷ rs) s h e =
      let (t, run, k, m) = h.0 s e in
      elim (Bool-cases t.cycle) [
        | inl c ↦ (t, rw (run, visit_roots) (rw c refl), k, λ d. cc)
        | inr c ↦
            let (u, rest, l, n) = visit_roots-Ends f rs t h.1 (k.same_stack ∙ e) in
            (u, rw (run, visit_roots) (simp c rest), Keeps-trans k l, λ d. (l.grows r (m c), n d))
      ]

  -- The search ends within its fuel.
  pub search_steps_ends :
      (t : Search) × (search_steps steps ≡ some t)
      × (t.cycle ≡ true → HasCycle steps)
      × (t.cycle ≡ false → IsTopological steps t.visited)
      × (t.cycle ≡ false → All (λ r. In r t.visited) (step_ids steps))
  unfolding search_steps
  search_steps_ends =
      let ids = step_ids steps in
      let (t, run, k, m) =
        visit_roots-Ends (visit steps (suc (length steps))) ids no_search
          (All-tabulate (Ends (visit steps (suc (length steps))) []) ids
            λ r _. visit-Ends (suc (length steps)) r [] (omega (arith, bound)) tt)
          refl in
      (t, run, λ c. elim (k.real_cycle c) [ inl d ↦ cc | inr w ↦ w ], λ c. k.order c tt, m)
    where
      bound : room (step_ids steps) [] ≤ length steps
      bound = omega (
        arith,
        keep-le (λ i. not (contains i [])) (step_ids steps),
        length-map (λ (s : PlanStep). s.step_id) steps,
      )
