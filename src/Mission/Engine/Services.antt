-- ===== src/Mission/Engine/Services.antt =====
-- What the engine of cli/src/mission/mission-engine.ts is given, the errors that it throws, and the
-- checks that it makes on texts. One call of an operation reads the clock once.
use ouroboros_runtime.Base.{
  ℕ, Bool, true, false, ◌&&◌, Option, none, some, List, [], ◌∷◌, all, Result, ok, ◌>>=◌, ◌>>◌,
  reject_if, is_some, not,
}
use ouroboros_runtime.Base.Text.{Text, is_white}
use ouroboros_runtime.Mission.Contracts.{
  Mission, CapabilityInvocation, CapabilityContract, OwnerVerification, CriterionVerification,
  EffectFingerprintInput, EvidenceRef, InvocationResult, InvocationStatus,
}

pub record CriterionClaim : Type 0 where
  pub criterion_id : Text
  pub satisfied : Bool
  pub source : Text
  pub evidence_ref_id : Option Text

-- The clock, the sanitizer of cli/src/mission/sanitize.ts, the catalog, the verification authority
-- (`none` where it throws) and the hash behind fingerprints.
pub record Services : Type 0 where
  pub now : ℕ
  pub sanitize_text : Text → Text
  pub contains_raw_secret : Text → Bool
  pub resolve : Text → Option CapabilityContract
  pub attest_owner :
      OwnerVerification → CapabilityInvocation → CapabilityContract → Option OwnerVerification
  pub attest_criterion : CriterionClaim → Mission → Option CriterionVerification
  pub digest : EffectFingerprintInput → Text

-- A constructor for each `throw` that the operations reach, less its message.
pub data EngineError : Type 0 where
  mission_not_found invocation_not_found revision_not_found step_not_found approval_not_found :
      EngineError
  terminal_mission revision_of_other_mission revision_not_proposed approval_effect_mismatch
        not_a_waiting_state not_paused no_resumable_state not_waiting verification_not_satisfied :
      EngineError
  dispatch_state no_accepted_plan approval_not_granted capability_gone plan_not_authorized
        bad_descriptor effect_claim_lost :
      EngineError
  invocation_conflict : (invocation_id : Text) → InvocationStatus → EngineError
  result_mismatch empty_identity raw_secret missing_completed_at attestation_refused
        unknown_capability wrong_attested_invocation wrong_attested_owner :
      EngineError
  cancellation_path no_pending_reconciliation no_handoff pre_handoff_state uncertain_delivery
        status_regression late_facts_without_owner not_reconciliation_authority :
      EngineError
  owner_rejected not_retry_eligible delivery_not_failed cancellation_requested no_failed_attempt
        bad_backoff unsafe_backoff :
      EngineError
  already_submitted cancellation_not_requested cancellation_regression cancellation_status
        no_hard_cancellation outcome_not_authorized delivery_regression not_submitted
        owner_boundary :
      EngineError
  identity_changed bad_update invalid_date : EngineError

-- `a ?? b`
abbrev pub option_or : {A : Type 0} → Option A → Option A → Option A
option_or none b = b
option_or (some a) b = some a

module _ (env : Services) where
  -- sanitizeOpaqueString
  unfoldable pub check_opaque : Text → Result EngineError (Unit {0})
  unfolding is_white
  check_opaque value = do
    reject_if (all is_white value) EngineError.empty_identity
    reject_if (env.contains_raw_secret value) EngineError.raw_secret

  -- sanitizeEvidenceRefs
  unfoldable pub sanitize_evidence_refs : List EvidenceRef → Result EngineError (List EvidenceRef)
  sanitize_evidence_refs [] = ok []
  sanitize_evidence_refs (r ∷ rs) =
      let rest = sanitize_evidence_refs rs in
      check_opaque r.ref_id >>= λ _. check_opaque r.owner >>= λ _. rest >>= λ rs'. ok (
        record r {
          external_ref = env.sanitize_text r.external_ref;
          label = env.sanitize_text r.label;
        }
        ∷ rs')

  abbrev ends_attempt : InvocationStatus → Bool
  ends_attempt InvocationStatus.completed = true
  ends_attempt InvocationStatus.cancelled = true
  ends_attempt InvocationStatus.failed = true
  ends_attempt _ = false

  -- validateInvocationResult: what its checks leave to say of a typed result.
  unfoldable pub validate_invocation_result : InvocationResult → Result EngineError (Unit {0})
  unfolding check_opaque
  validate_invocation_result result = do
    check_opaque result.invocation_id
    reject_if (ends_attempt result.status && not (is_some result.completed_at))
        EngineError.missing_completed_at
