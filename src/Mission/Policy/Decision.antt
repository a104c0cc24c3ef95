-- ===== src/Mission/Policy/Decision.antt =====
-- DecisionBuilder and sameStringList of cli/src/mission/policy.ts, and the fingerprint of an
-- effect. The state of the builder is the list of its codes.
use ouroboros_runtime.Base.{
  ℕ, Bool, true, false, ◌&&◌, ◌≡◌, ◌↔◌, refl, List, [], ◌∷◌, ◌++◌, length, contains, if◌then◌else◌,
  Eq, nat_beq, ◌==◌, ==_iff, ==_refl, &&-true, ap₂, ◌≢◌, arith,
}
use ouroboros_runtime.Base.Text.{Text, text_eq, text_leb}
use ouroboros_runtime.Base.Sort.{sort}
use ouroboros_runtime.Mission.Contracts.{
  PolicyRejectionCode, PolicyDecision, EffectFingerprintInput,
}

abbrev code_number : PolicyRejectionCode → ℕ
code_number PolicyRejectionCode.capability_not_authorized = 0
code_number PolicyRejectionCode.capability_unknown = 1
code_number PolicyRejectionCode.dependency_cycle = 2
code_number PolicyRejectionCode.effect_not_authorized = 3
code_number PolicyRejectionCode.approval_missing = 4
code_number PolicyRejectionCode.approval_grant_forbidden = 5
code_number PolicyRejectionCode.approval_scope_mismatch = 6
code_number PolicyRejectionCode.input_incompatible = 7
code_number PolicyRejectionCode.acceptance_mutation = 8
code_number PolicyRejectionCode.constraint_mutation = 9
code_number PolicyRejectionCode.storage_access_denied = 10
code_number PolicyRejectionCode.module_owner_bypass = 11
code_number PolicyRejectionCode.empty_plan = 12
code_number PolicyRejectionCode.unknown_step_reference = 13
code_number PolicyRejectionCode.mission_id_mismatch = 14

abbrev code_beq : PolicyRejectionCode → PolicyRejectionCode → Bool
code_beq a b = nat_beq (code_number a) (code_number b)

code_number-injective : (a b : PolicyRejectionCode) → code_number a ≡ code_number b → a ≡ b
code_number-injective a b h = ground arith

pub code_beq_iff : (a b : PolicyRejectionCode) → (code_beq a b ≡ true) ↔ (a ≡ b)
code_beq_iff a b = (λ h. code_number-injective a b (ground arith), λ h. ground arith)

instance abbrev pub code_eq : Eq PolicyRejectionCode
code_eq = record { same = code_beq; same_iff = code_beq_iff }

abbrev pub Codes : Type 0
Codes = List PolicyRejectionCode

-- A code is recorded once, at its first rejection.
unfoldable pub reject : PolicyRejectionCode → Codes → Codes
reject code codes = if contains code codes then codes else codes ++ code ∷ []

unfoldable pub build : Codes → PolicyDecision
build codes = record { valid = nat_beq (length codes) 0; codes = codes }

-- `if (test) decision.reject(code)`
abbrev pub reject_when : Bool → PolicyRejectionCode → Codes → Codes
reject_when test code codes = if test then reject code codes else codes

-- `sortedA.every((value, index) => value === sortedB[index])`, at lists of one length.
unfoldable pub same_elements : List Text → List Text → Bool
same_elements [] bs = true
same_elements (a ∷ as') [] = false
same_elements (a ∷ as') (b ∷ bs) = a == b && same_elements as' bs

unfoldable pub same_string_list : List Text → List Text → Bool
same_string_list a b =
    if nat_beq (length a) (length b)
    then same_elements (sort text_leb a) (sort text_leb b)
    else false

-- computeEffectFingerprint: `digest` stands for the sha256 of the JSON text of its argument.
unfoldable pub compute_effect_fingerprint :
    (EffectFingerprintInput → Text) → EffectFingerprintInput → Text
compute_effect_fingerprint digest input =
    digest (record input { input_refs = sort text_leb input.input_refs })

pub reject-ne-nil : (code : PolicyRejectionCode) (codes : Codes) → reject code codes ≢ []
unfolding reject contains
reject-ne-nil code [] h = cc
reject-ne-nil code (c ∷ cs) h = ground arith

-- Nothing is recorded exactly when nothing was recorded before and the test failed.
pub reject_when-nil :
    (test : Bool) (code : PolicyRejectionCode) (codes : Codes)
    → (reject_when test code codes ≡ []) ↔ ((codes ≡ []) × (test ≡ false))
reject_when-nil true code codes = (λ h. absurd (reject-ne-nil code codes h), λ h. cc h.1)
reject_when-nil false code codes = (λ h. (h, refl), λ h. h.0)

pub reject_when_twice-nil :
    (t u : Bool) (c d : PolicyRejectionCode) (codes : Codes)
    → (reject_when u d (reject_when t c codes) ≡ []) ↔ ((codes ≡ []) × (t ≡ false) × (u ≡ false))
reject_when_twice-nil t u c d codes = (
  λ h.
      let (first, second) = (reject_when-nil u d (reject_when t c codes)).0 h in
      let (before, third) = (reject_when-nil t c codes).0 first in (before, third, second),
  λ h.
      (reject_when-nil u d (reject_when t c codes)).1
        ((reject_when-nil t c codes).1 (h.0, h.1), h.2),
)

pub build-valid : (codes : Codes) → ((build codes).valid ≡ true) ↔ (codes ≡ [])
unfolding build
build-valid [] = (λ _. refl, λ _. refl)
build-valid (c ∷ cs) = (λ h. ground arith, λ h. cc)

pub reject-build :
    (code : PolicyRejectionCode) (codes : Codes) → (build (reject code codes)).valid ≢ true
reject-build code codes h = reject-ne-nil code codes ((build-valid (reject code codes)).0 h)

pub same_elements_self : (as' : List Text) → same_elements as' as' ≡ true
unfolding same_elements
same_elements_self [] = refl
same_elements_self (a ∷ as') = rw (==_refl a) (same_elements_self as')

pub same_elements-eq :
    (as' bs : List Text) → length as' ≡ length bs → same_elements as' bs ≡ true → as' ≡ bs
unfolding same_elements
same_elements-eq [] [] h k = refl
same_elements-eq [] (b ∷ bs) h k = absurd (omega arith)
same_elements-eq (a ∷ as') [] h k = cc
same_elements-eq (a ∷ as') (b ∷ bs) h k =
    let (e, rest) = &&-true (a == b) (same_elements as' bs) k in
    ap₂ ◌∷◌ ((==_iff a b).0 e) (same_elements-eq as' bs (omega arith) rest)
