-- ===== src/Mission/Policy/Multisets.antt =====
-- sameStringList and computeEffectFingerprint: what the sorting in them is for.
use ouroboros_runtime.Base.{
  ◌≡◌, ◌↔◌, sym, ap, ◌∙◌, inl, inr, true, List, length, nat_beq, nat_beq_iff, Bool-cases,
}
use mathlib.Core.List.{Perm}
use mathlib.Core.List.Perm
use ouroboros_runtime.Base.Text.{Text, text_leb, text_leb_total, text_leb_antisymm, text_leb_trans}
use ouroboros_runtime.Base.Sort.{sort, sort-perm, sort_perm, length_perm}
use ouroboros_runtime.Mission.Contracts.{EffectFingerprintInput}
use ouroboros_runtime.Mission.Policy.Decision.{
  same_elements_self, same_elements-eq, same_string_list, compute_effect_fingerprint,
}

texts-set : IsSet (List Text)
texts-set = hlevel

-- Lists with the same elements, as often, are sorted alike.
pub sort_texts_perm : (a b : List Text) → Perm a b → sort text_leb a ≡ sort text_leb b
sort_texts_perm a b = sort_perm text_leb text_leb_total text_leb_trans text_leb_antisymm texts-set

-- Two lists of texts are taken for the same exactly when one is a reordering of the other:
-- repeated elements count.
pub same_string_list_iff : (a b : List Text) → (same_string_list a b ≡ true) ↔ Perm a b
unfolding same_string_list
same_string_list_iff a b = elim (Bool-cases (nat_beq (length a) (length b))) [
  | inl e ↦
      let lengths : length (sort text_leb a) ≡ length (sort text_leb b) =
        length_perm (sort text_leb a) a (sort-perm text_leb a)
        ∙ (nat_beq_iff (length a) (length b)).0 e
        ∙ sym (length_perm (sort text_leb b) b (sort-perm text_leb b)) in
      (
        λ h.
            let sorted = same_elements-eq (sort text_leb a) (sort text_leb b) lengths (rw e at h) in
            Perm.trans (Perm.symm (sort-perm text_leb a)) (rw sorted (sort-perm text_leb b)),
        λ p. rw (e, sort_texts_perm a b p) (same_elements_self (sort text_leb b)),
      )
  | inr e ↦ (
    λ h. cc (rw e at h),
    λ p. cc (length_perm a b p, (nat_beq_iff (length a) (length b)).1 (length_perm a b p)),
  )
]

module _ (digest : EffectFingerprintInput → Text) where
  -- The order in which a step names its input references does not change its fingerprint.
  pub compute_effect_fingerprint-perm :
      (input : EffectFingerprintInput) (refs : List Text)
      → Perm input.input_refs refs
      → compute_effect_fingerprint digest input
        ≡ compute_effect_fingerprint digest (record input { input_refs = refs })
  unfolding compute_effect_fingerprint
  compute_effect_fingerprint-perm input refs p =
      ap (λ sorted. digest (record input { input_refs = sorted }))
        (sort_texts_perm input.input_refs refs p)

  -- Where the hash has no collision, equal fingerprints mean the same capability, effect class,
  -- outcome and, up to order, input references.
  pub compute_effect_fingerprint-eq :
      (a b : EffectFingerprintInput)
      → ((x y : EffectFingerprintInput) → digest x ≡ digest y → x ≡ y)
      → compute_effect_fingerprint digest a ≡ compute_effect_fingerprint digest b
      → (a.capability_id ≡ b.capability_id)
        × (a.effect_class ≡ b.effect_class)
        × (a.outcome ≡ b.outcome)
        × Perm a.input_refs b.input_refs
  unfolding compute_effect_fingerprint
  compute_effect_fingerprint-eq a b injective h =
      let same =
        injective (record a { input_refs = sort text_leb a.input_refs })
          (record b { input_refs = sort text_leb b.input_refs }) h in
      (
        ap (λ (x : EffectFingerprintInput). x.capability_id) same,
        ap (λ (x : EffectFingerprintInput). x.effect_class) same,
        ap (λ (x : EffectFingerprintInput). x.outcome) same,
        Perm.trans (Perm.symm (sort-perm text_leb a.input_refs)) (
            rw (ap (λ (x : EffectFingerprintInput). x.input_refs) same)
              (sort-perm text_leb b.input_refs)),
      )
