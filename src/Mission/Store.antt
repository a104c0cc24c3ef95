-- ===== src/Mission/Store.antt =====
-- saveInvocation of cli/src/mission/sqlite-mission-store.ts on a row that it has, which is what
-- updateInvocation calls with a full invocation, and the checks that it makes.
pub mod Writes
pub mod Identity
pub mod History
use ouroboros_runtime.Base.{
  ℕ, Bool, true, false, not, ◌&&◌, Option, none, some, List, [], ◌∷◌, ◌++◌, any, nat_beq, contains,
  if◌then◌else◌, ◌==◌, Result, ok, ◌>>=◌, ◌>>◌, reject_if,
}
use ouroboros_runtime.Base.Text.{Text, text_eq}
use ouroboros_runtime.Mission.Contracts.{
  CapabilityInvocation, EvidenceRef, EffectClass, IdempotencyMode, RetryBackoff,
  CancellationSupport, ReconciliationSupport, effect_class_eq, is_invocation_terminal,
  is_invocation_update_allowed,
}
use ouroboros_runtime.Mission.Engine.Services.{Services, EngineError}
use ouroboros_runtime.Mission.Engine.Rows.{identity_is_empty, invocation_texts}

-- uniqueByRef, after the ids that it has seen
unfoldable pub unique_after : List Text → List EvidenceRef → List EvidenceRef
unique_after seen [] = []
unique_after seen (r ∷ rs) =
    let again = unique_after seen rs in
    let first = unique_after (r.ref_id ∷ seen) rs in
    if contains r.ref_id seen then again else r ∷ first

abbrev pub unique_by_ref : List EvidenceRef → List EvidenceRef
unique_by_ref refs = unique_after [] refs

unfoldable pub texts_beq : List Text → List Text → Bool
texts_beq [] [] = true
texts_beq (a ∷ as') (b ∷ bs) = a == b && texts_beq as' bs
texts_beq _ _ = false

unfoldable pub effect_beq : Option EffectClass → Option EffectClass → Bool
effect_beq none none = true
effect_beq (some a) (some b) = a == b
effect_beq _ _ = false

unfoldable pub key_beq : Option Text → Option Text → Bool
key_beq none none = true
key_beq (some a) (some b) = a == b
key_beq _ _ = false

abbrev pub mode_code : IdempotencyMode → ℕ
mode_code IdempotencyMode.idempotent = 0
mode_code IdempotencyMode.non_idempotent = 1
mode_code IdempotencyMode.unknown = 2

abbrev pub backoff_code : RetryBackoff → ℕ
backoff_code RetryBackoff.none = 0
backoff_code RetryBackoff.fixed = 1
backoff_code RetryBackoff.exponential = 2

abbrev pub cancellation_support_code : CancellationSupport → ℕ
cancellation_support_code CancellationSupport.none = 0
cancellation_support_code CancellationSupport.cooperative = 1
cancellation_support_code CancellationSupport.hard = 2
cancellation_support_code CancellationSupport.unsupported = 3

abbrev pub reconciliation_support_code : ReconciliationSupport → ℕ
reconciliation_support_code ReconciliationSupport.none = 0
reconciliation_support_code ReconciliationSupport.status_replay = 1
reconciliation_support_code ReconciliationSupport.full_replay = 2

-- The two tests of assertImmutableInvocationIdentity.
unfoldable pub same_identity : CapabilityInvocation → CapabilityInvocation → Bool
same_identity a b =
    a.mission_id == b.mission_id
    && a.step_id == b.step_id
    && a.capability_id == b.capability_id
    && a.plan_revision_id == b.plan_revision_id
    && nat_beq a.contract_version b.contract_version
    && a.module_owner == b.module_owner
    && effect_beq a.effect_class b.effect_class
    && a.request_id == b.request_id
    && a.effect_fingerprint == b.effect_fingerprint
    && texts_beq a.input_refs b.input_refs
    && nat_beq a.created_at b.created_at

unfoldable pub same_semantics : CapabilityInvocation → CapabilityInvocation → Bool
same_semantics a b =
    nat_beq (mode_code a.idempotency.mode) (mode_code b.idempotency.mode)
    && key_beq a.idempotency.key b.idempotency.key
    && nat_beq a.retry.max_attempts b.retry.max_attempts
    && nat_beq (backoff_code a.retry.backoff) (backoff_code b.retry.backoff)
    && nat_beq (cancellation_support_code a.cancellation.support)
        (cancellation_support_code b.cancellation.support)
    && nat_beq (reconciliation_support_code a.reconciliation.support)
        (reconciliation_support_code b.reconciliation.support)

-- The row that is written over `current`.
abbrev pub stored_row : CapabilityInvocation → CapabilityInvocation → CapabilityInvocation
stored_row current next = record next {
  result_refs = unique_by_ref (current.result_refs ++ unique_by_ref next.result_refs);
}

-- The row that stands afterwards. A write to a terminal row is dropped without an error.
unfoldable pub save_invocation :
    Services → CapabilityInvocation → CapabilityInvocation → Result EngineError CapabilityInvocation
unfolding identity_is_empty invocation_texts
save_invocation env current next =
    reject_if (any env.contains_raw_secret (invocation_texts next)) EngineError.raw_secret
    >> reject_if (identity_is_empty next) EngineError.empty_identity
    >> (if is_invocation_terminal current
        then ok current
        else reject_if (not (same_identity current next)) EngineError.identity_changed
          >> reject_if (not (same_semantics current next)) EngineError.identity_changed
          >> reject_if (not (is_invocation_update_allowed current.status next.status))
              EngineError.status_regression
          >> ok (stored_row current next))
