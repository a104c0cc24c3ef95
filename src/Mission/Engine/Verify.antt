-- ===== src/Mission/Engine/Verify.antt =====
-- DefaultMissionVerifier of cli/src/mission/mission-engine.ts, on a Mission and the invocations that
-- the store derives for it. The reasons, texts for a reader, are not modelled.
pub mod Correct
use ouroboros_runtime.Base.{
  Bool, true, false, not, ◌&&◌, ◌||◌, Option, none, some, List, [], ◌∷◌, any, is_empty, contains,
  keep, map, if◌then◌else◌,
}
use ouroboros_runtime.Base.Text.{Text, text_eq}
use ouroboros_runtime.Mission.Contracts.{
  Mission, CapabilityInvocation, CapabilityContract, CriterionVerification, InvocationStatus,
  OwnerVerification, rejects, status_is,
}

pub record Verdict : Type 0 where
  pub satisfied : Bool
  pub owner_blocked : Bool

abbrev pub refused : Verdict
refused = record { satisfied = false; owner_blocked = false }

-- The set `terminal` of the verifier, which holds more than the terminal statuses.
abbrev pub is_settled : InvocationStatus → Bool
is_settled InvocationStatus.completed = true
is_settled InvocationStatus.failed = true
is_settled InvocationStatus.cancelled = true
is_settled InvocationStatus.blocked = true
is_settled _ = false

abbrev pub did_not_complete : InvocationStatus → Bool
did_not_complete InvocationStatus.failed = true
did_not_complete InvocationStatus.cancelled = true
did_not_complete InvocationStatus.blocked = true
did_not_complete _ = false

abbrev pub is_verified : Option OwnerVerification → Bool
is_verified none = false
is_verified (some v) = v.verified

-- The owners that have positively verified an invocation.
unfoldable pub trusted_owners : List CapabilityInvocation → List Text
trusted_owners [] = []
trusted_owners (i ∷ is') =
    let rest = trusted_owners is' in
    elim i.owner_verification [ none ↦ rest | some v ↦ if v.verified then v.owner ∷ rest else rest ]

abbrev pub counts : List Text → CriterionVerification → Bool
counts owners cv = cv.satisfied && contains cv.source owners

abbrev pub satisfied_criteria : List Text → List CriterionVerification → List Text
satisfied_criteria owners cvs =
    map (λ (cv : CriterionVerification). cv.criterion_id) (keep (counts owners) cvs)

module _ (resolve : Text → Option CapabilityContract) where
  -- The body of the loop over the contracts returns early.
  abbrev pub lacks_owner : CapabilityInvocation → Bool
  lacks_owner i = elim (resolve i.capability_id) [
    | none ↦ true
    | some c ↦ c.requires_owner_verification && not (is_verified i.owner_verification)
  ]

  unfoldable pub verify : Mission → List CapabilityInvocation → Verdict
  unfolding trusted_owners
  verify mission invocations =
      let owners = trusted_owners invocations in
      let proven = satisfied_criteria owners mission.criterion_verifications in
      if is_empty invocations
      then refused
      else if any (λ (i : CapabilityInvocation). not (is_settled i.status)) invocations
      then refused
      else if any (λ (i : CapabilityInvocation). rejects i.owner_verification) invocations
      then record { satisfied = false; owner_blocked = true }
      else if any (λ (i : CapabilityInvocation). did_not_complete i.status) invocations
      then refused
      else if any lacks_owner invocations
      then refused
      else if any (λ (c : Text). not (contains c proven)) mission.acceptance_criteria
      then refused
      else record { satisfied = true; owner_blocked = false }
