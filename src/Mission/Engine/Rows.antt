-- ===== src/Mission/Engine/Rows.antt =====
-- assertValidInvocationIdentity of cli/src/mission/contracts.ts, and assertNoRawSecrets of
-- cli/src/mission/sanitize.ts at an invocation: it visits every text of the row.
use ouroboros_runtime.Base.{
  Bool, ◌||◌, Option, none, some, List, [], ◌∷◌, ◌++◌, any, is_empty, Result, ◌>>◌, reject_if,
}
use ouroboros_runtime.Base.Text.{Text}
use ouroboros_runtime.Mission.Contracts.{
  CapabilityInvocation, CapabilityInvocationAttempt, EvidenceRef, OwnerVerification,
}
use ouroboros_runtime.Mission.Engine.Services.{Services, EngineError}

unfoldable pub identity_is_empty : CapabilityInvocation → Bool
identity_is_empty inv =
    is_empty inv.invocation_id
    || is_empty inv.mission_id
    || is_empty inv.step_id
    || is_empty inv.capability_id
    || is_empty inv.request_id
    || is_empty inv.effect_fingerprint

abbrev option_text : Option Text → List Text
option_text none = []
option_text (some t) = t ∷ []

unfoldable pub evidence_texts : List EvidenceRef → List Text
evidence_texts [] = []
evidence_texts (r ∷ rs) = r.ref_id ∷ r.owner ∷ r.external_ref ∷ r.label ∷ evidence_texts rs

abbrev owner_texts : Option OwnerVerification → List Text
owner_texts none = []
owner_texts (some v) = v.invocation_id ∷ v.reason ∷ v.owner ∷ []

unfoldable pub attempt_texts : List CapabilityInvocationAttempt → List Text
attempt_texts [] = []
attempt_texts (a ∷ as') = a.correlation_id ∷ (option_text a.error ++ attempt_texts as')

unfoldable pub invocation_texts : CapabilityInvocation → List Text
unfolding evidence_texts attempt_texts
invocation_texts inv =
    (inv.invocation_id ∷ inv.mission_id ∷ inv.step_id ∷ inv.capability_id ∷ inv.plan_revision_id
      ∷ inv.module_owner ∷ inv.request_id ∷ inv.effect_fingerprint ∷ inv.input_refs)
    ++ (evidence_texts inv.result_refs
        ++ (owner_texts inv.owner_verification
            ++ (option_text inv.error
                ++ (option_text inv.idempotency.key
                    ++ (attempt_texts inv.attempts
                        ++ (option_text inv.delivery.remote_operation_handle
                            ++ (option_text inv.cancellation.requested_by
                                ++ (option_text inv.cancellation.reason
                                    ++ option_text inv.reconciliation.next_action))))))))

-- The two assertions in front of a durable write.
unfoldable pub assert_row : Services → CapabilityInvocation → Result EngineError (Unit {0})
unfolding identity_is_empty invocation_texts
assert_row env inv =
    reject_if (identity_is_empty inv) EngineError.empty_identity
    >> reject_if (any env.contains_raw_secret (invocation_texts inv)) EngineError.raw_secret
