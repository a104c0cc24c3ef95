-- ===== src/Mission/Scheduler/Lasts.antt =====
-- The entries that count where cli/src/mission/mission-scheduler.ts makes a Map of a list: of those with
-- one key the last.
use ouroboros_runtime.Base.{
  ◌≡◌, refl, ap, sym, ◌∙◌, ◌⊎◌, inl, inr, true, false, none, some, List, [], ◌∷◌, ◌==◌, ==_iff, All,
  All-In, In, Bool-cases, Option-cases, arith,
}
use ouroboros_runtime.Base.Text.{Text, text_eq}
use ouroboros_runtime.Mission.Scheduler.{last_with}

-- No two entries have one key.
abbrev pub HasDistinct : {A : Type 0} → (A → Text) → List A → Type 0
HasDistinct key [] = Unit
HasDistinct key (a ∷ es) = All (λ b. (key b == key a) ≡ false) es × HasDistinct key es

module _ {A : Type 0} (key : A → Text) where
  -- No later entry has the key of this one.
  abbrev pub IsLast : A → List A → Type 0
  IsLast a [] = ⊥
  IsLast a (b ∷ es) = ((b ≡ a) × All (λ c. (key c == key a) ≡ false) es) ⊎ IsLast a es

  last_with-none :
      (k : Text) (es : List A) → All (λ b. (key b == k) ≡ false) es → last_with key k es ≡ none
  unfolding last_with
  last_with-none k [] h = refl
  last_with-none k (a ∷ es) h = ground (arith, last_with-none k es h.1)

  last_with-eq-none :
      (k : Text) (es : List A) → last_with key k es ≡ none → All (λ b. (key b == k) ≡ false) es
  unfolding last_with
  last_with-eq-none k [] h = tt
  last_with-eq-none k (b ∷ es) h = elim (Option-cases (last_with key k es)) [
    | inl e ↦ elim (Bool-cases (key b == k)) [
      | inl t ↦ absurd (cc (rw (e, t) at h))
      | inr f ↦ (f, last_with-eq-none k es e)
    ]
    | inr (c, e) ↦ absurd (cc (rw e at h))
  ]

  pub last_with-IsLast : (a : A) (es : List A) → IsLast a es → last_with key (key a) es ≡ some a
  unfolding last_with
  last_with-IsLast a [] m = elim m [ ]
  last_with-IsLast a (b ∷ es) (inl (e, last)) =
      let none_later = last_with-none (key a) es last in
      let self : (key b == key a) ≡ true = (==_iff (key b) (key a)).1 (ap key e) in
      rw (none_later, self) (ap some e)
  last_with-IsLast a (b ∷ es) (inr m) = rw (last_with-IsLast a es m) refl

  pub last_with-eq-some :
      (k : Text) (es : List A) {a : A} → last_with key k es ≡ some a → IsLast a es × (key a ≡ k)
  unfolding last_with
  last_with-eq-some k [] h = cc
  last_with-eq-some k (b ∷ es) {a} h = elim (Option-cases (last_with key k es)) [
    | inl e ↦ elim (Bool-cases (key b == k)) [
      | inl t ↦
          let same : b ≡ a = ground arith in
          let named : key a ≡ k = rw (← same) ((==_iff (key b) k).0 t) in
          (inl (same, rw named (last_with-eq-none k es e)), named)
      | inr f ↦ cc (rw (e, f) at h)
    ]
    | inr (c, e) ↦ let (m, q) = last_with-eq-some k es (e ∙ (rw e at h)) in (inr m, q)
  ]

  pub IsLast-In : (a : A) (es : List A) → IsLast a es → In a es
  IsLast-In a [] m = m
  IsLast-In a (b ∷ es) (inl (e, last)) = inl e
  IsLast-In a (b ∷ es) (inr m) = inr (IsLast-In a es m)

  -- Every key that occurs has a last entry.
  pub In-IsLast : (a : A) (es : List A) → In a es → (b : A) × IsLast b es × (key b ≡ key a)
  In-IsLast a (b ∷ es) m = elim (Option-cases (last_with key (key a) (b ∷ es))) [
    | inl e ↦
        let apart = All-In _ (b ∷ es) a (last_with-eq-none (key a) (b ∷ es) e) m in
        absurd (cc (apart, (==_iff (key a) (key a)).1 refl))
    | inr (c, e) ↦ let (last, same) = last_with-eq-some (key a) (b ∷ es) e in (c, last, same)
  ]
  In-IsLast a [] m = elim m [ ]

  -- Where no key repeats, that is the entry itself.
  pub IsLast-unique :
      (a b : A) (es : List A) → HasDistinct key es → In a es → IsLast b es → key b ≡ key a → b ≡ a
  IsLast-unique a b [] d m last same = elim m [ ]
  IsLast-unique a b (c ∷ es) d (inl e) (inl (f, last)) same = sym f ∙ e
  IsLast-unique a b (c ∷ es) d (inl e) (inr last) same =
      let apart = All-In _ es b d.0 (IsLast-In b es last) in
      absurd (cc (apart, (==_iff (key b) (key c)).1 (same ∙ ap key (sym e))))
  IsLast-unique a b (c ∷ es) d (inr m) (inl (f, last)) same =
      let apart = All-In _ es a last m in absurd (cc (apart, (==_iff (key a) (key b)).1 (sym same)))
  IsLast-unique a b (c ∷ es) d (inr m) (inr last) same = IsLast-unique a b es d.1 m last same
