-- ===== src/Mission/Engine/Lifecycle.antt =====
-- The operations of cli/src/mission/mission-engine.ts on the state of a Mission, from where the Mission
-- is read to the Mission that is written.
pub mod Steps
pub mod Laws
use ouroboros_runtime.Base.{
  ℕ, Bool, true, false, not, ◌&&◌, Option, none, some, List, [], ◌∷◌, ◌++◌, map, keep, length,
  is_empty, is_some, contains, find?, if◌then◌else◌, ◌==◌, Result, ok, err, ◌>>=◌, ◌>>◌, reject_if,
}
use ouroboros_runtime.Base.Text.{Text, text, text_eq}
use ouroboros_runtime.Mission.Contracts.{
  Mission, MissionState, CapabilityInvocation, CriterionVerification, MissionContextAccounting,
  MissionPauseMetadata, is_terminal, is_waiting, state_is,
}
use ouroboros_runtime.Mission.Engine.Services.{Services, CriterionClaim, EngineError}
use ouroboros_runtime.Mission.Engine.Verify.{verify}

-- A Mission that was not paused has no metadata to resume from.
abbrev pub resumable : Mission → Option MissionState
resumable mission = elim mission.pause_metadata [
  | none ↦ none
  | some meta ↦
      if state_is meta.previous_state MissionState.paused
      then none
      else if is_terminal meta.previous_state
      then none
      else some meta.previous_state
]

abbrev pub is_new_question : Text → List Text → Bool
is_new_question q questions = not (is_empty q) && not (contains q questions)

module _ (env : Services) where
  abbrev pub guard_not_terminal : Mission → Result EngineError (Unit {0})
  guard_not_terminal mission = reject_if (is_terminal mission.state) EngineError.terminal_mission

  abbrev pub with_note : Mission → MissionState → Text → Mission
  with_note mission state note = record mission {
    state = state;
    unresolved_questions = mission.unresolved_questions ++ note ∷ [];
    updated_at = env.now;
  }

  unfoldable pub set_waiting : Mission → MissionState → Option Text → Result EngineError Mission
  set_waiting mission state question =
      guard_not_terminal mission
      >> reject_if (not (is_waiting state)) EngineError.not_a_waiting_state
      >> ok (record mission {
        state = state;
        unresolved_questions = elim question [
          | none ↦ mission.unresolved_questions
          | some q ↦
              if is_new_question q mission.unresolved_questions
              then mission.unresolved_questions ++ env.sanitize_text q ∷ []
              else mission.unresolved_questions
        ];
        updated_at = env.now;
      })

  unfoldable pub block_mission : Mission → (reason : Text) → Result EngineError Mission
  block_mission mission reason =
      guard_not_terminal mission
      >> ok (with_note mission MissionState.blocked (text "blocked: " ++ env.sanitize_text reason))

  unfoldable pub fail_mission : Mission → (reason : Text) → Result EngineError Mission
  fail_mission mission reason =
      guard_not_terminal mission
      >> ok (
          with_note mission MissionState.failed_terminal
            (text "failed: " ++ env.sanitize_text reason))

  -- The Mission that cancelMission writes after its loop over the invocations.
  unfoldable pub cancel_mission : Mission → (reason : Text) → Result EngineError Mission
  cancel_mission mission reason =
      guard_not_terminal mission
      >> ok (
          with_note mission MissionState.cancelled (text "cancelled: " ++ env.sanitize_text reason))

  unfoldable pub pause_mission :
      Mission → (reason : Text) → (paused_by : Option Text) → Result EngineError Mission
  pause_mission mission reason paused_by =
      guard_not_terminal mission
      >> ok (
          if state_is mission.state MissionState.paused then mission else record mission {
            state = MissionState.paused;
            pause_metadata = some record {
              previous_state = mission.state;
              reason = env.sanitize_text reason;
              paused_at = env.now;
              paused_by = elim paused_by [ none ↦ none | some t ↦ some (env.sanitize_text t) ];
            };
            updated_at = env.now;
          })

  unfoldable pub resume_mission : Mission → Result EngineError Mission
  resume_mission mission =
      guard_not_terminal mission
      >> reject_if (not (state_is mission.state MissionState.paused)) EngineError.not_paused
      >> elim (resumable mission) [
        | none ↦ err EngineError.no_resumable_state
        | some state ↦
            ok (record mission { state = state; pause_metadata = none; updated_at = env.now })
      ]

  unfoldable pub restore_waiting_to_ready : Mission → Result EngineError Mission
  restore_waiting_to_ready mission =
      guard_not_terminal mission
      >> reject_if (not (is_waiting mission.state)) EngineError.not_waiting
      >> ok (record mission { state = MissionState.ready; updated_at = env.now })

  abbrev satisfied_count : List CriterionVerification → ℕ
  satisfied_count cvs = length (keep (λ (cv : CriterionVerification). cv.satisfied) cvs)

  unfoldable pub complete_mission : Mission → List CapabilityInvocation → Result EngineError Mission
  complete_mission mission invocations =
      let verdict = verify env.resolve mission invocations in
      guard_not_terminal mission
      >> reject_if (not verdict.satisfied) EngineError.verification_not_satisfied
      >> reject_if verdict.owner_blocked EngineError.verification_not_satisfied
      >> ok (record mission {
        state = MissionState.completed;
        context_accounting = elim mission.context_accounting [
          | none ↦ none
          | some accounting ↦ some record {
            outcome = record {
              state = MissionState.completed;
              verified = true;
              owner_blocked = false;
              verified_criteria = satisfied_count mission.criterion_verifications;
            };
            updated_at = env.now;
          }
        ];
        updated_at = env.now;
      })

  -- The verdict of the authority, at the time of the clock, in the place of the one for the same
  -- criterion or behind the others.
  unfoldable pub record_criterion_verification :
      Mission → CriterionClaim → Result EngineError Mission
  record_criterion_verification mission claim =
      let same = λ (cv : CriterionVerification). cv.criterion_id == claim.criterion_id in
      guard_not_terminal mission >> elim (env.attest_criterion claim mission) [
        | none ↦ err EngineError.attestation_refused
        | some attested ↦
            let entry = record attested { verified_at = env.now } in
            ok (record mission {
              criterion_verifications =
                  if is_some (find? same mission.criterion_verifications)
                  then map (λ cv. if same cv then entry else cv) mission.criterion_verifications
                  else mission.criterion_verifications ++ entry ∷ [];
              updated_at = env.now;
            })
      ]
