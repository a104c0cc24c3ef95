-- ===== src/Mission/Policy/Spec/Steps.antt =====
-- Each check of a step records nothing exactly when its part of the specification holds.
use ouroboros_runtime.Base.{
  Bool, true, false, not, ◌&&◌, ◌≡◌, ◌≢◌, ◌↔◌, ◌⊎◌, refl, inl, inr, List, [], ◌∷◌, is_empty, All,
  In, contains, contains-In, In-contains, Eq, ◌==◌, ==_iff, Bool-cases, Option-cases, arith,
}
use ouroboros_runtime.Base.Text.{Text, text_eq, starts_with, starts_with-eq, starts_with-append}
use ouroboros_runtime.Mission.Contracts.{Mission, CapabilityContract, effect_class_eq}
use ouroboros_runtime.Mission.Policy.Decision.{Codes, reject_when-nil, reject_when_twice-nil}
use ouroboros_runtime.Mission.Policy.Refs.{private_owner}
use ouroboros_runtime.Mission.Policy.Validate.{
  is_storage_ref, in_prefixes, validate_input_ref, validate_input_refs, validate_ownership,
  validate_module_ownership,
}
use ouroboros_runtime.Mission.Policy.Spec.{IsWithin, RefAllowed, OwnerAllowed}

in_prefixes-IsWithin :
    (prefixes : List Text) (ref : Text) → in_prefixes prefixes ref ≡ true → IsWithin prefixes ref
unfolding in_prefixes
in_prefixes-IsWithin [] ref h = cc
in_prefixes-IsWithin (p ∷ ps) ref h = elim (Bool-cases (starts_with ref p)) [
  | inl s ↦ (p, inl refl, starts_with-eq ref p s)
  | inr s ↦ let (q, m, e) = in_prefixes-IsWithin ps ref (ground arith) in (q, inr m, e)
]

IsWithin-in_prefixes :
    (prefixes : List Text) (ref : Text) → IsWithin prefixes ref → in_prefixes prefixes ref ≡ true
unfolding in_prefixes
IsWithin-in_prefixes [] ref (q, m, e) = elim m [ ]
IsWithin-in_prefixes (p ∷ ps) ref (q, inl e, (r, s)) =
    let here : starts_with ref p ≡ true = rw (s, ← e) (starts_with-append p r) in ground arith
IsWithin-in_prefixes (p ∷ ps) ref (q, inr m, e) =
    ground (arith, IsWithin-in_prefixes ps ref (q, m, e))

pub is_empty-false : {A : Type 0} (xs : List A) → (is_empty xs ≡ false) ↔ (xs ≢ [])
is_empty-false [] = (λ h. cc, λ h. absurd (h refl))
is_empty-false (x ∷ xs) = (λ _ e. cc, λ _. refl)

&&-false_right : (b : Bool) → (b && false) ≡ false
&&-false_right true = refl
&&-false_right false = refl

pub not-false : (b : Bool) → (not b ≡ false) ↔ (b ≡ true)
not-false true = (λ _. refl, λ _. refl)
not-false false = (λ h. cc, λ h. cc)

-- `contains` as a test that rejects.
pub not-contains-false :
    {A : Type 0} ⦃e : Eq A⦄ (a : A) (xs : List A) → (not (contains a xs) ≡ false) ↔ In a xs
not-contains-false ⦃e⦄ a xs = (
  λ h. contains-In a xs ((not-false (contains a xs)).0 h),
  λ m. (not-false (contains a xs)).1 (In-contains a xs m),
)

pub not_==-false : {A : Type 0} ⦃e : Eq A⦄ (a b : A) → (not (a == b) ≡ false) ↔ (a ≡ b)
not_==-false ⦃e⦄ a b =
    (λ h. (==_iff a b).0 ((not-false (a == b)).0 h), λ p. (not-false (a == b)).1 ((==_iff a b).1 p))

module _ (mission : Mission) (contract : CapabilityContract) where
  abbrev mission_prefixes : List Text
  mission_prefixes = mission.allowed_capability_scope.allowed_ref_prefixes

  abbrev contract_prefixes : List Text
  contract_prefixes = contract.allowed_input_ref_prefixes

  declared :
      (ref : Text)
      → is_storage_ref ref ≡ false
      → (not (in_prefixes contract_prefixes ref) && not (is_empty contract_prefixes)) ≡ false
      → (is_storage_ref ref ≡ true) ⊎ (contract_prefixes ≢ [])
      → in_prefixes contract_prefixes ref ≡ true
  declared ref st b (inl s) = cc
  declared ref st b (inr ne) = let full = (is_empty-false contract_prefixes).1 ne in ground arith

  input_ref-RefAllowed :
      (ref : Text) (codes : Codes)
      → validate_input_ref mission contract ref codes ≡ []
      → (codes ≡ []) × RefAllowed mission contract ref
  unfolding validate_input_ref
  input_ref-RefAllowed ref codes h = elim (Bool-cases (is_storage_ref ref)) [
    | inl st ↦
        let (e, a, b) = (reject_when_twice-nil _ _ _ _ codes).0 (rw st at h) in
        (
          e,
          record {
            in_mission = in_prefixes-IsWithin mission_prefixes ref ((not-false _).0 b);
            in_contract = λ _. in_prefixes-IsWithin contract_prefixes ref ((not-false _).0 a);
          },
        )
    | inr st ↦
        let (e, a, b) = (reject_when_twice-nil _ _ _ _ codes).0 (rw st at h) in
        (
          e,
          record {
            in_mission = in_prefixes-IsWithin mission_prefixes ref ((not-false _).0 a);
            in_contract = λ c. in_prefixes-IsWithin contract_prefixes ref (declared ref st b c);
          },
        )
  ]

  RefAllowed-input_ref :
      (ref : Text)
      → RefAllowed mission contract ref
      → validate_input_ref mission contract ref [] ≡ []
  unfolding validate_input_ref
  RefAllowed-input_ref ref r =
      let im = IsWithin-in_prefixes mission_prefixes ref r.in_mission in
      elim (Bool-cases (is_storage_ref ref)) [
        | inl st ↦
            let ic = IsWithin-in_prefixes contract_prefixes ref (r.in_contract (inl st)) in
            simp (st, im, ic)
        | inr st ↦ elim (Bool-cases (is_empty contract_prefixes)) [
          | inl none_declared ↦ simp (st, im, none_declared, &&-false_right)
          | inr declared ↦
              let ic =
                IsWithin-in_prefixes contract_prefixes ref
                  (r.in_contract (inr ((is_empty-false contract_prefixes).0 declared))) in
              simp (st, im, ic)
        ]
      ]

  pub validate_input_refs-nil :
      (refs : List Text) (codes : Codes)
      → (validate_input_refs mission contract refs codes ≡ [])
        ↔ ((codes ≡ []) × All (RefAllowed mission contract) refs)
  unfolding validate_input_refs
  validate_input_refs-nil [] codes = (λ h. (h, tt), λ h. h.0)
  validate_input_refs-nil (r ∷ rs) codes =
      let step = validate_input_ref mission contract r codes in
      (
        λ h.
            let (first, later) = (validate_input_refs-nil rs step).0 h in
            let (before, here) = input_ref-RefAllowed r codes first in (before, (here, later)),
        λ h. (validate_input_refs-nil rs step).1 (rw h.0 (RefAllowed-input_ref r h.1.0), h.1.1),
      )

  ownership-OwnerAllowed :
      (ref : Text) (codes : Codes)
      → (validate_ownership contract ref codes ≡ []) ↔ ((codes ≡ []) × OwnerAllowed contract ref)
  unfolding validate_ownership private_owner
  ownership-OwnerAllowed ref codes = elim (Option-cases (private_owner ref)) [
    | inl free ↦ (
      λ h.
          let (e, a) = (reject_when-nil _ _ codes).0 (simp free at h) in
          (e, record { no_bypass = a; own_area = λ o p. cc }),
      λ h. simp free ((reject_when-nil _ _ codes).1 (h.0, h.1.no_bypass)),
    )
    | inr (o, owned) ↦ (
      λ h.
          let (e, a, b) = (reject_when_twice-nil _ _ _ _ codes).0 (simp owned at h) in
          (
            e,
            record {
              no_bypass = a;
              own_area = λ o' p.
                  let same : o ≡ o' = cc in
                  rw (← same) ((not_==-false o contract.module_owner).0 b);
            },
          ),
      λ h. simp owned (
          (reject_when_twice-nil _ _ _ _ codes).1
            (h.0, h.1.no_bypass, (not_==-false o contract.module_owner).1 (h.1.own_area o owned))),
    )
  ]

  pub validate_module_ownership-nil :
      (refs : List Text) (codes : Codes)
      → (validate_module_ownership contract refs codes ≡ [])
        ↔ ((codes ≡ []) × All (OwnerAllowed contract) refs)
  unfolding validate_module_ownership
  validate_module_ownership-nil [] codes = (λ h. (h, tt), λ h. h.0)
  validate_module_ownership-nil (r ∷ rs) codes =
      let step = validate_ownership contract r codes in
      (
        λ h.
            let (first, later) = (validate_module_ownership-nil rs step).0 h in
            let (before, here) = (ownership-OwnerAllowed r codes).0 first in
            (before, (here, later)),
        λ h.
            (validate_module_ownership-nil rs step).1
              ((ownership-OwnerAllowed r codes).1 (h.0, h.1.0), h.1.1),
      )
