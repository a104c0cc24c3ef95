-- ===== src/Base/Sort.antt =====
-- `Array.prototype.sort` with a comparison: a stable sort, as insertion sort. `leb a b` says that
-- `a` may stand before `b`.
pub mod Keep
use mathlib.Core.Path.{◌≡◌, refl, ap, ◌∙◌}
use mathlib.Core.Logic.{inl, inr, ∥∥₁_elim}
use mathlib.Core.Bool.{Bool, true, false}
use mathlib.Core.List.{List, [], ◌∷◌, Perm, Permᴰ}
use mathlib.Core.List.Perm
use Prim.Native.Nat.{suc}
use native.Mathlib.Nat.{ℕ_set}
use native.Mathlib.Omega.{arith}
use ouroboros_runtime.Base.Tests.{if◌then◌else◌, Bool-cases}
use ouroboros_runtime.Base.Lists.{All, length}

length_permᴰ : {A : Type 0} {xs ys : List A} → Permᴰ xs ys → length xs ≡ length ys
length_permᴰ Permᴰ.nil = refl
length_permᴰ (Permᴰ.cons e p) = ap suc (length_permᴰ p)
length_permᴰ (Permᴰ.swap e f) = refl
length_permᴰ (Permᴰ.trans p q) = length_permᴰ p ∙ length_permᴰ q

pub length_perm : {A : Type 0} (xs ys : List A) → Perm xs ys → length xs ≡ length ys
length_perm xs ys p = ∥∥₁_elim p (ℕ_set (length xs) (length ys)) length_permᴰ

module _ {A : Type 0} (leb : A → A → Bool) where
  unfoldable pub insert : A → List A → List A
  insert a [] = a ∷ []
  insert a (x ∷ xs) = let later = x ∷ insert a xs in if leb a x then a ∷ x ∷ xs else later

  unfoldable pub sort : List A → List A
  unfolding insert
  sort [] = []
  sort (x ∷ xs) = insert x (sort xs)

  pub insert-perm : (a : A) (xs : List A) → Perm (insert a xs) (a ∷ xs)
  unfolding insert
  insert-perm a [] = Perm.refl (a ∷ [])
  insert-perm a (x ∷ xs) = elim (Bool-cases (leb a x)) [
    | inl h ↦ rw h (Perm.refl (a ∷ x ∷ xs))
    | inr h ↦ rw h (Perm.trans (Perm.cons x (insert-perm a xs)) (Perm.swap a x xs))
  ]

  pub sort-perm : (xs : List A) → Perm (sort xs) xs
  unfolding sort
  sort-perm [] = Perm.refl []
  sort-perm (x ∷ xs) = Perm.trans (insert-perm x (sort xs)) (Perm.cons x (sort-perm xs))

  -- `leb` holds of each element and every later one.
  abbrev pub IsSorted : List A → Type 0
  IsSorted [] = Unit
  IsSorted (x ∷ xs) = All (λ y. leb x y ≡ true) xs × IsSorted xs

  All-insert : (P : A → Type 0) (a : A) (xs : List A) → P a → All P xs → All P (insert a xs)
  unfolding insert
  All-insert P a [] p h = (p, tt)
  All-insert P a (x ∷ xs) p h = elim (Bool-cases (leb a x)) [
    | inl t ↦ rw t (p, h)
    | inr f ↦ rw f (h.0, All-insert P a xs p h.1)
  ]

  -- What stable sorting needs of a comparison.
  module _ (total : (a b : A) → leb a b ≡ false → leb b a ≡ true)
      (trans : (a b c : A) → leb a b ≡ true → leb b c ≡ true → leb a c ≡ true) where
    pub All-leb :
        (a x : A) (xs : List A)
        → leb a x ≡ true
        → All (λ y. leb x y ≡ true) xs
        → All (λ y. leb a y ≡ true) xs
    All-leb a x [] t h = tt
    All-leb a x (y ∷ ys) t h = (trans a x y t h.0, All-leb a x ys t h.1)

    insert-IsSorted : (a : A) (xs : List A) → IsSorted xs → IsSorted (insert a xs)
    unfolding insert
    insert-IsSorted a [] h = (tt, tt)
    insert-IsSorted a (x ∷ xs) h = elim (Bool-cases (leb a x)) [
      | inl t ↦ rw t ((t, All-leb a x xs t h.0), h)
      | inr f ↦
          rw f (All-insert (λ y. leb x y ≡ true) a xs (total a x f) h.0, insert-IsSorted a xs h.1)
    ]

    pub sort-IsSorted : (xs : List A) → IsSorted (sort xs)
    unfolding sort
    sort-IsSorted [] = tt
    sort-IsSorted (x ∷ xs) = insert-IsSorted x (sort xs) (sort-IsSorted xs)

    -- An order that tells elements apart makes the sorted list independent of the order given.
    module _ (antisymm : (a b : A) → leb a b ≡ true → leb b a ≡ true → a ≡ b)
        (set : IsSet (List A)) where
      insert_comm : (a b : A) (xs : List A) → insert a (insert b xs) ≡ insert b (insert a xs)
      unfolding insert
      insert_comm a b [] = ground (arith, total a b, antisymm a b)
      insert_comm a b (x ∷ xs) = ground (
        arith,
        total a b,
        antisymm a b,
        trans a b x,
        trans b a x,
        total a x,
        total b x,
        insert_comm a b xs,
      )

      sort_permᴰ : {xs ys : List A} → Permᴰ xs ys → sort xs ≡ sort ys
      unfolding sort
      sort_permᴰ Permᴰ.nil = refl
      sort_permᴰ (Permᴰ.cons {a} {b} e p) = rw (e, sort_permᴰ p)
      sort_permᴰ (Permᴰ.swap {a} {b} {l = l} e f) = rw (← e, ← f) (insert_comm a b (sort l))
      sort_permᴰ (Permᴰ.trans p q) = sort_permᴰ p ∙ sort_permᴰ q

      pub sort_perm : {xs ys : List A} → Perm xs ys → sort xs ≡ sort ys
      sort_perm {xs} {ys} p = ∥∥₁_elim p (set (sort xs) (sort ys)) sort_permᴰ
