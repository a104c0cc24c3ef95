-- ===== src/Mission/Policy/Graph/Order.antt =====
-- Walks along dependency edges, and orders in which each dependency stands before its dependant.
use ouroboros_runtime.Base.{inl, inr, List, [], ◌∷◌, All, All-In, In}
use ouroboros_runtime.Base.Text.{Text, text_eq}
use ouroboros_runtime.Mission.Contracts.{PlanStep}
use ouroboros_runtime.Mission.Policy.Graph.{deps_of}

module _ (steps : List PlanStep) where
  -- `b` is a dependency of `a`.
  abbrev pub Edge : Text → Text → Type 0
  Edge a b = In b (deps_of steps a)

  -- One edge or more.
  pub data Walk : Text → Text → Type 0 where
    edge : {a b : Text} → Edge a b → Walk a b
    then : {a b c : Text} → Edge a b → Walk b c → Walk a c

  pub Walk-snoc : {a b c : Text} → Walk a b → Edge b c → Walk a c
  Walk-snoc (edge e) k = then e (edge k)
  Walk-snoc (then e w) k = then e (Walk-snoc w k)

  abbrev pub HasCycle : Type 0
  HasCycle = (a : Text) × Walk a a

  -- Each id stands in front of all of its dependencies.
  abbrev pub IsTopological : List Text → Type 0
  IsTopological [] = Unit
  IsTopological (v ∷ r) = All (λ d. In d r) (deps_of steps v) × IsTopological r

  pub Edge-In : (r : List Text) (a b : Text) → IsTopological r → In a r → Edge a b → In b r
  Edge-In [] a b t m e = elim m [ ]
  Edge-In (v ∷ r) a b t (inl h) e = inr (All-In (λ d. In d r) (deps_of steps v) b t.0 (rw h e))
  Edge-In (v ∷ r) a b t (inr m) e = inr (Edge-In r a b t.1 m e)

  Walk-In : (r : List Text) {a b : Text} → IsTopological r → In a r → Walk a b → In b r
  Walk-In r t m (edge {a = x} {b = y} e) = Edge-In r x y t m e
  Walk-In r t m (then {a = x} {b = y} e w) = Walk-In r t (Edge-In r x y t m e) w

  -- A walk from the first id of such an order ends among the others.
  Walk-tail :
      (v : Text) (r : List Text) {b : Text}
      → All (λ d. In d r) (deps_of steps v)
      → IsTopological r
      → Walk v b
      → In b r
  Walk-tail v r {b} h t (edge e) = All-In (λ d. In d r) (deps_of steps v) b h e
  Walk-tail v r h t (then {b = c} e w) =
      Walk-In r t (All-In (λ d. In d r) (deps_of steps v) c h e) w

  pub IsTopological-no_cycle : (r : List Text) (a : Text) → IsTopological r → In a r → ¬ Walk a a
  IsTopological-no_cycle [] a t m w = elim m [ ]
  IsTopological-no_cycle (v ∷ r) a t (inl h) w =
      IsTopological-no_cycle r a t.1 (Walk-tail a r (rw (← h) t.0) t.1 w) w
  IsTopological-no_cycle (v ∷ r) a t (inr m) w = IsTopological-no_cycle r a t.1 m w
