-- ===== src/Mission/Engine/Steps/Invariant.antt =====
-- Soundness of every row that the operations of cli/src/mission/mission-engine.ts write.
use ouroboros_runtime.Base.{sym}
use ouroboros_runtime.Mission.Contracts.{CapabilityInvocation}
use ouroboros_runtime.Mission.Engine.Steps.{Step, Reach, IsSound}
use ouroboros_runtime.Mission.Engine.Steps.Writes.{
  apply_result-eq-updated, apply_late_facts-eq-updated, prepare_retry-eq-ok,
  mark_handoff-eq-updated, mark_reconciliation-eq-updated, record_cancellation_outcome-eq-updated,
}
use ouroboros_runtime.Mission.Engine.Steps.Kept.{
  result_row-IsSound, late_row-IsSound, retry_row-IsSound, handoff_row-IsSound,
  reconciliation_row-IsSound,
}
use ouroboros_runtime.Mission.Engine.Steps.Cancelled.{
  cancel_with_mission-IsSound, cancel_unsubmitted-IsSound, cancellation_outcome_row-IsSound,
}
use ouroboros_runtime.Base.{subst}

-- An operation that reads a sound row writes a sound row.
pub Step-IsSound : {inv row : CapabilityInvocation} → Step inv row → IsSound inv → IsSound row
Step-IsSound {inv} {row} (Step.by_result env b result refs claim h) s =
    result_row-IsSound env inv row result refs
      (apply_result-eq-updated env b inv result refs claim h) s
Step-IsSound {inv} {row} (Step.by_late_facts env evidence status refs claim c h) s =
    let (attested, is_row, _) = apply_late_facts-eq-updated env inv evidence status refs claim h in
    subst IsSound (sym is_row) (late_row-IsSound env inv status attested refs c s)
Step-IsSound {inv} {row} (Step.by_retry env backoff_ms id h) s =
    retry_row-IsSound env inv row id (prepare_retry-eq-ok env inv backoff_ms id h) s
Step-IsSound {inv} {row} (Step.by_handoff env update h) s =
    handoff_row-IsSound env inv row update (mark_handoff-eq-updated env inv update h) s
Step-IsSound {inv} {row} (Step.by_reconciliation env update h) s =
    reconciliation_row-IsSound env inv row update (mark_reconciliation-eq-updated env inv update h)
      s
Step-IsSound {inv} {row} (Step.by_mission_cancelled env reason by h) s =
    cancel_with_mission-IsSound env inv reason by h s
Step-IsSound {inv} {row} (Step.by_cancel env reason by h) s =
    cancel_unsubmitted-IsSound env inv reason by h s
Step-IsSound {inv} {row} (Step.by_cancellation_outcome env update h) s =
    cancellation_outcome_row-IsSound env inv row update
      (record_cancellation_outcome-eq-updated env inv update h) s

-- However many operations write an invocation whose first row is sound, its row stays sound: a failed
-- row has crossed the connector boundary, a completed one carries no negative verdict of its owner,
-- the attempts are numbered without a gap, and there are at most one more of them than the retry
-- policy's maximum.
pub Reach-IsSound :
    {first row : CapabilityInvocation} → Reach first row → IsSound first → IsSound row
Reach-IsSound Reach.here s = s
Reach-IsSound (Reach.later r step) s = Step-IsSound step (Reach-IsSound r s)
