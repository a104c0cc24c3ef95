-- ===== src/Base/Sort/Keep.antt =====
-- Sorting and filtering: a stable sort keeps the filtered list sorted the same way.
use mathlib.Core.Path.{◌≡◌, refl, sym, ap, ◌∙◌}
use mathlib.Core.Logic.{inl, inr}
use mathlib.Core.Bool.{Bool, true, false}
use mathlib.Core.List.{List, [], ◌∷◌}
use native.Mathlib.Omega.{arith}
use ouroboros_runtime.Base.Tests.{Bool-cases}
use ouroboros_runtime.Base.Lists.{All, keep, length}
use ouroboros_runtime.Base.Sort.{insert, sort, IsSorted, sort-IsSorted, All-leb}

module _ {A : Type 0} (p : A → Bool) where
  pub All-keep : (P : A → Type 0) (xs : List A) → All P xs → All P (keep p xs)
  All-keep P [] h = tt
  All-keep P (x ∷ xs) h = elim (Bool-cases (p x)) [
    | inl t ↦ rw t (h.0, All-keep P xs h.1)
    | inr f ↦ rw f (All-keep P xs h.1)
  ]

module _ {A : Type 0} (leb : A → A → Bool) (p : A → Bool) where
  pub keep-IsSorted : (xs : List A) → IsSorted leb xs → IsSorted leb (keep p xs)
  keep-IsSorted [] h = tt
  keep-IsSorted (x ∷ xs) h = elim (Bool-cases (p x)) [
    | inl t ↦ rw t (All-keep p (λ y. leb x y ≡ true) xs h.0, keep-IsSorted xs h.1)
    | inr f ↦ rw f (keep-IsSorted xs h.1)
  ]

  pub keep-insert_dropped :
      (a : A) (xs : List A) → p a ≡ false → keep p (insert leb a xs) ≡ keep p xs
  unfolding insert
  keep-insert_dropped a [] f = rw f refl
  keep-insert_dropped a (x ∷ xs) f = ground (arith, keep-insert_dropped a xs f)

  length-keep-insert :
      (a : A) (xs : List A) → length (keep p (insert leb a xs)) ≡ length (keep p (a ∷ xs))
  unfolding insert
  length-keep-insert a [] = refl
  length-keep-insert a (x ∷ xs) = ground (arith, length-keep-insert a xs)

  -- Sorting changes no number of elements that pass a test.
  pub length-keep-sort : (xs : List A) → length (keep p (sort leb xs)) ≡ length (keep p xs)
  unfolding sort
  length-keep-sort [] = refl
  length-keep-sort (x ∷ xs) =
      ground (arith, length-keep-insert x (sort leb xs), length-keep-sort xs)

module _ {A : Type 0} (leb : A → A → Bool) where
  insert_before : (a : A) (xs : List A) → All (λ y. leb a y ≡ true) xs → insert leb a xs ≡ a ∷ xs
  unfolding insert
  insert_before a [] h = refl
  insert_before a (x ∷ xs) h = rw (h.0) refl

  -- A sorted list is left as it is.
  pub sort_sorted : (xs : List A) → IsSorted leb xs → sort leb xs ≡ xs
  unfolding sort
  sort_sorted [] h = refl
  sort_sorted (x ∷ xs) h = rw (sort_sorted xs h.1) (insert_before x xs h.0)

  module _ (p : A → Bool) (total : (a b : A) → leb a b ≡ false → leb b a ≡ true)
      (trans : (a b c : A) → leb a b ≡ true → leb b c ≡ true → leb a c ≡ true) where
    keep-insert :
        (a : A) (xs : List A)
        → IsSorted leb xs
        → p a ≡ true
        → keep p (insert leb a xs) ≡ insert leb a (keep p xs)
    unfolding insert
    keep-insert a [] h t = rw t refl
    keep-insert a (x ∷ xs) h t = elim (Bool-cases (leb a x)) [
      | inl e ↦
          let after : All (λ y. leb a y ≡ true) (x ∷ xs) =
            (e, All-leb leb total trans a x xs e h.0) in
          rw (e, t)
            (sym
              (insert_before a (keep p (x ∷ xs)) (All-keep p (λ y. leb a y ≡ true) (x ∷ xs) after)))
      | inr f ↦ ground (arith, keep-insert a xs h.1 t)
    ]

    pub keep-sort : (xs : List A) → keep p (sort leb xs) ≡ sort leb (keep p xs)
    unfolding sort
    keep-sort [] = refl
    keep-sort (x ∷ xs) = elim (Bool-cases (p x)) [
      | inl t ↦ rw t (
          keep-insert x (sort leb xs) (sort-IsSorted leb total trans xs) t
          ∙ ap (insert leb x) (keep-sort xs))
      | inr f ↦ rw f (keep-insert_dropped leb p x (sort leb xs) f ∙ keep-sort xs)
    ]
