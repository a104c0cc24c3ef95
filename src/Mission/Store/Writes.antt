-- ===== src/Mission/Store/Writes.antt =====
-- How saveInvocation of cli/src/mission/sqlite-mission-store.ts takes what the Mission engine writes.
use ouroboros_runtime.Base.{
  Bool, true, false, not, ◌≡◌, refl, Option, none, some, List, [], ◌∷◌, ok, any, ◌⊎◌, ◌>>◌,
  reject_if, Bool-cases, inl, inr, ==_refl, arith, nat_eq,
}
use ouroboros_runtime.Base.Text.{Text, text_eq}
use ouroboros_runtime.Mission.Contracts.{
  CapabilityInvocation, EffectClass, effect_class_eq, is_invocation_terminal,
  is_invocation_update_allowed,
}
use ouroboros_runtime.Mission.Engine.Services.{Services, EngineError}
use ouroboros_runtime.Mission.Engine.Rows.{assert_row, identity_is_empty, invocation_texts}
use ouroboros_runtime.Mission.Store.{
  texts_beq, effect_beq, key_beq, same_identity, same_semantics, save_invocation, stored_row,
}

texts_beq_refl : (xs : List Text) → texts_beq xs xs ≡ true
unfolding texts_beq
texts_beq_refl [] = refl
texts_beq_refl (x ∷ xs) = simp (==_refl x, texts_beq_refl xs) refl

effect_beq_refl : (e : Option EffectClass) → effect_beq e e ≡ true
unfolding effect_beq
effect_beq_refl none = refl
effect_beq_refl (some e) = ==_refl e

key_beq_refl : (k : Option Text) → key_beq k k ≡ true
unfolding key_beq
key_beq_refl none = refl
key_beq_refl (some k) = ==_refl k

pub same_identity_refl : (inv : CapabilityInvocation) → same_identity inv inv ≡ true
unfolding same_identity
same_identity_refl inv =
    simp
      (
        ==_refl inv.mission_id,
        ==_refl inv.step_id,
        ==_refl inv.capability_id,
        ==_refl inv.plan_revision_id,
        ==_refl inv.contract_version,
        ==_refl inv.module_owner,
        effect_beq_refl inv.effect_class,
        ==_refl inv.request_id,
        ==_refl inv.effect_fingerprint,
        texts_beq_refl inv.input_refs,
        ==_refl inv.created_at,
      )
      refl

pub same_semantics_refl : (inv : CapabilityInvocation) → same_semantics inv inv ≡ true
unfolding same_semantics
same_semantics_refl inv = let k = key_beq_refl inv.idempotency.key in ground arith

guards-ok :
    (a b : Bool) (e f : EngineError) {u : Unit {0}}
    → (reject_if a e >> reject_if b f) ≡ ok u
    → (a ≡ false) × (b ≡ false)
guards-ok a b e f h = (ground arith, ground arith)

assert_row-ok :
    (env : Services) (row : CapabilityInvocation) {u : Unit {0}}
    → assert_row env row ≡ ok u
    → (any env.contains_raw_secret (invocation_texts row) ≡ false) × (identity_is_empty row ≡ false)
unfolding assert_row
assert_row-ok env row h = let (named, no_secret) = guards-ok _ _ _ _ h in (no_secret, named)

-- The assertions that the store shares with the engine, passed.
pub save-asserted :
    (env : Services) (current next : CapabilityInvocation) {u : Unit {0}}
    → assert_row env next ≡ ok u
    → is_invocation_terminal current ≡ false
    → same_identity current next ≡ true
    → same_semantics current next ≡ true
    → is_invocation_update_allowed current.status next.status ≡ true
    → save_invocation env current next ≡ ok (stored_row current next)
unfolding save_invocation assert_row
save-asserted env current next asserted live same kept allowed =
    let (no_secret, named) = assert_row-ok env next asserted in
    simp (no_secret, named, live, same, kept, allowed) refl

pub save-terminal :
    (env : Services) (current next : CapabilityInvocation) {u : Unit {0}}
    → assert_row env next ≡ ok u
    → is_invocation_terminal current ≡ true
    → save_invocation env current next ≡ ok current
unfolding save_invocation assert_row
save-terminal env current next asserted done =
    let (no_secret, named) = assert_row-ok env next asserted in simp (no_secret, named, done) refl

passed-eq :
    (a b : Bool) (e f : EngineError) (x : CapabilityInvocation) (y : CapabilityInvocation)
    → (reject_if a e >> reject_if b f >> ok x) ≡ ok y
    → y ≡ x
passed-eq a b e f x y h = ground arith

guarded-eq :
    (a b c d g : Bool) (e1 e2 e3 e4 e5 : EngineError) (x y : CapabilityInvocation)
    → (reject_if a e1
        >> reject_if b e2
        >> (reject_if c e3 >> reject_if d e4 >> reject_if g e5 >> ok x))
      ≡ ok y
    → y ≡ x
guarded-eq a b c d g e1 e2 e3 e4 e5 x y h = ground arith

-- What stands after a save: the old row, where it is terminal, or the new one with its evidence merged.
pub save-cases :
    (env : Services) (current next : CapabilityInvocation) {kept : CapabilityInvocation}
    → save_invocation env current next ≡ ok kept
    → ((is_invocation_terminal current ≡ true) × (kept ≡ current))
      ⊎ ((is_invocation_terminal current ≡ false) × (kept ≡ stored_row current next))
unfolding save_invocation
save-cases env current next h = elim (Bool-cases (is_invocation_terminal current)) [
  | inl done ↦ inl (
    done,
    passed-eq (any env.contains_raw_secret (invocation_texts next)) (identity_is_empty next)
        EngineError.raw_secret EngineError.empty_identity current _ (simp done at h),
  )
  | inr live ↦ inr (
    live,
    guarded-eq (any env.contains_raw_secret (invocation_texts next)) (identity_is_empty next)
        (not (same_identity current next)) (not (same_semantics current next))
        (not (is_invocation_update_allowed current.status next.status)) EngineError.raw_secret
        EngineError.empty_identity EngineError.identity_changed EngineError.identity_changed
        EngineError.status_regression (stored_row current next) _ (simp live at h),
  )
]
