-- ===== src/Mission/Store/History.antt =====
-- The durable rows of one invocation: each operation of cli/src/mission/mission-engine.ts reads the row
-- that cli/src/mission/sqlite-mission-store.ts holds and saves what it makes of it.
use ouroboros_runtime.Base.{
  suc, ◌≤◌, Bool, true, false, ◌&&◌, ◌≡◌, refl, sym, subst, ap, ◌∙◌, Option, List, length, ok,
  nat_beq, nat_beq_iff, inl, inr, arith,
}
use ouroboros_runtime.Mission.Contracts.{
  CapabilityInvocation, InvocationStatus, EvidenceRef, OwnerVerification, status_is, rejects,
  is_invocation_terminal, is_status_terminal,
}
use ouroboros_runtime.Mission.Engine.Services.{Services}
use ouroboros_runtime.Mission.Engine.Rows.{assert_row}
use ouroboros_runtime.Mission.Engine.Results.{Outcome}
use ouroboros_runtime.Mission.Engine.Late.{apply_late_facts}
use ouroboros_runtime.Mission.Engine.Steps.{Step, IsSound}
use ouroboros_runtime.Mission.Engine.Steps.Writes.{apply_late_facts-eq-updated}
use ouroboros_runtime.Mission.Engine.Steps.Laws.{Step-is_invocation_update_allowed}
use ouroboros_runtime.Mission.Engine.Steps.Owner.{Step-rejects}
use ouroboros_runtime.Mission.Engine.Steps.Invariant.{Step-IsSound}
use ouroboros_runtime.Mission.Store.{
  same_semantics, save_invocation, stored_row, mode_code, key_beq, backoff_code,
  cancellation_support_code, reconciliation_support_code,
}
use ouroboros_runtime.Mission.Store.Identity.{Step-same_identity}
use ouroboros_runtime.Mission.Store.Writes.{save-asserted, save-terminal, save-cases}

pub data History (first : CapabilityInvocation) : CapabilityInvocation → Type 0 where
  start : History first first
  then_saved :
      {row next kept : CapabilityInvocation} (env : Services)
      → History first row
      → Step row next
      → save_invocation env row next ≡ ok kept
      → History first kept

-- The store accepts every row that an operation makes of a sound row that is not terminal, when the
-- row names its identity and holds no raw secret: it is stored with its evidence merged.
pub save-Step :
    (env : Services) {inv row : CapabilityInvocation}
    → Step inv row
    → IsSound inv
    → is_invocation_terminal inv ≡ false
    → assert_row env row ≡ ok tt
    → save_invocation env inv row ≡ ok (stored_row inv row)
save-Step env {inv} {row} step sound live asserted =
    let (same, kept) = Step-same_identity step in
    save-asserted env inv row asserted live same kept (Step-is_invocation_update_allowed step sound)

cancelled-terminal :
    (status : InvocationStatus)
    → status_is status InvocationStatus.cancelled ≡ true
    → is_status_terminal status ≡ true
unfolding is_status_terminal
cancelled-terminal status h = ground arith

-- The late facts that the engine records for a cancelled invocation never reach its row: the store
-- returns the old row and reports no error.
pub save-late_facts :
    (env : Services) (inv : CapabilityInvocation) (evidence : List EvidenceRef)
    (status : InvocationStatus) (refs : List EvidenceRef) (claim : Option OwnerVerification)
    {row : CapabilityInvocation}
    → status_is inv.status InvocationStatus.cancelled ≡ true
    → apply_late_facts env inv evidence status refs claim ≡ ok (Outcome.updated row)
    → save_invocation env inv row ≡ ok inv
save-late_facts env inv evidence status refs claim {row} cancelled h =
    let (_, _, asserted) = apply_late_facts-eq-updated env inv evidence status refs claim h in
    save-terminal env inv row asserted (cancelled-terminal inv.status cancelled)

stored_row-IsSound :
    (inv next : CapabilityInvocation) → IsSound next → IsSound (stored_row inv next)
stored_row-IsSound inv next s = record {
  failed_delivered = s.failed_delivered;
  completed_not_rejected = s.completed_not_rejected;
  numbered = s.numbered;
  some_attempt = s.some_attempt;
  at_least_last = s.at_least_last;
  at_most_next = s.at_most_next;
  within_budget = s.within_budget;
}

-- Every durable row of an invocation is sound when its first row is.
pub History-IsSound :
    {first row : CapabilityInvocation} → History first row → IsSound first → IsSound row
History-IsSound History.start s = s
History-IsSound (History.then_saved {row} {next} {kept} env past step saved) s =
    let before = History-IsSound past s in
    elim (save-cases env row next saved) [
      | inl (done, same) ↦ subst IsSound (sym same) before
      | inr (live, new) ↦
          subst IsSound (sym new) (stored_row-IsSound row next (Step-IsSound step before))
    ]

-- A row that is completed or cancelled never changes again, in any of its fields.
pub History-terminal :
    {first row : CapabilityInvocation}
    → History first row
    → is_invocation_terminal first ≡ true
    → row ≡ first
History-terminal History.start t = refl
History-terminal {first} (History.then_saved {row} {next} {kept} env past step saved) t =
    let same = History-terminal past t in
    elim (save-cases env row next saved) [
      | inl (done, stays) ↦ stays ∙ same
      | inr (live, new) ↦
          absurd (let still : is_invocation_terminal row ≡ true = rw same t in cc (still, live))
    ]

-- A negative verdict of the module's owner is never replaced.
pub History-rejects :
    {first row : CapabilityInvocation}
    → History first row
    → rejects first.owner_verification ≡ true
    → row.owner_verification ≡ first.owner_verification
History-rejects History.start r = refl
History-rejects {first} (History.then_saved {row} {next} {kept} env past step saved) r =
    let same = History-rejects past r in
    let still : rejects row.owner_verification ≡ true = rw same r in
    elim (save-cases env row next saved) [
      | inl (done, stays) ↦ ap (λ (i : CapabilityInvocation). i.owner_verification) stays ∙ same
      | inr (live, new) ↦
          ap (λ (i : CapabilityInvocation). i.owner_verification) new
          ∙ (Step-rejects step still ∙ same)
    ]

third-true : (a b c d e f : Bool) → (a && b && c && d && e && f) ≡ true → c ≡ true
third-true a b c d e f h = ground arith

same_semantics-max_attempts :
    (a b : CapabilityInvocation)
    → same_semantics a b ≡ true
    → b.retry.max_attempts ≡ a.retry.max_attempts
unfolding same_semantics
same_semantics-max_attempts a b h =
    let same =
      third-true (nat_beq (mode_code a.idempotency.mode) (mode_code b.idempotency.mode))
        (key_beq a.idempotency.key b.idempotency.key)
        (nat_beq a.retry.max_attempts b.retry.max_attempts)
        (nat_beq (backoff_code a.retry.backoff) (backoff_code b.retry.backoff))
        (nat_beq (cancellation_support_code a.cancellation.support)
          (cancellation_support_code b.cancellation.support))
        (nat_beq (reconciliation_support_code a.reconciliation.support)
          (reconciliation_support_code b.reconciliation.support))
        h in
    sym ((nat_beq_iff a.retry.max_attempts b.retry.max_attempts).0 same)

History-max_attempts :
    {first row : CapabilityInvocation}
    → History first row
    → row.retry.max_attempts ≡ first.retry.max_attempts
History-max_attempts History.start = refl
History-max_attempts {first} (History.then_saved {row} {next} {kept} env past step saved) =
    let same = History-max_attempts past in
    elim (save-cases env row next saved) [
      | inl (done, stays) ↦ ap (λ (i : CapabilityInvocation). i.retry.max_attempts) stays ∙ same
      | inr (live, new) ↦
          ap (λ (i : CapabilityInvocation). i.retry.max_attempts) new
          ∙ (same_semantics-max_attempts row next ((Step-same_identity step).1) ∙ same)
    ]

-- However often an invocation is retried, it has at most one attempt more than the maximum that its
-- first row was given.
pub History-attempts :
    {first row : CapabilityInvocation}
    → History first row
    → IsSound first
    → length row.attempts ≤ suc (first.retry.max_attempts)
History-attempts past s =
    let limit = History-max_attempts past in
    let kept = (History-IsSound past s).within_budget in omega arith
