-- ===== src/Mission/Contracts/States.antt =====
-- The enumerations of cli/src/mission/contracts.ts and of cli/src/capabilities/contracts.ts.
-- `===` on a string enumeration compares its members, numbered in their order of declaration.
use ouroboros_runtime.Base.{ℕ, Bool, true, false, ◌≡◌, ◌↔◌, Eq, nat_beq, arith}

pub data MissionState : Type 0 where
  created planning waiting_for_context waiting_for_approval ready executing waiting_for_capability
        waiting_for_provider waiting_for_budget verifying paused completed blocked failed_terminal
        cancelled :
      MissionState

-- WAITING_STATES.has
unfoldable pub is_waiting : MissionState → Bool
is_waiting MissionState.waiting_for_context = true
is_waiting MissionState.waiting_for_approval = true
is_waiting MissionState.waiting_for_capability = true
is_waiting MissionState.waiting_for_provider = true
is_waiting MissionState.waiting_for_budget = true
is_waiting _ = false

-- TERMINAL_STATES.has
unfoldable pub is_terminal : MissionState → Bool
is_terminal MissionState.completed = true
is_terminal MissionState.failed_terminal = true
is_terminal MissionState.cancelled = true
is_terminal _ = false

abbrev mission_state_code : MissionState → ℕ
mission_state_code MissionState.created = 0
mission_state_code MissionState.planning = 1
mission_state_code MissionState.waiting_for_context = 2
mission_state_code MissionState.waiting_for_approval = 3
mission_state_code MissionState.ready = 4
mission_state_code MissionState.executing = 5
mission_state_code MissionState.waiting_for_capability = 6
mission_state_code MissionState.waiting_for_provider = 7
mission_state_code MissionState.waiting_for_budget = 8
mission_state_code MissionState.verifying = 9
mission_state_code MissionState.paused = 10
mission_state_code MissionState.completed = 11
mission_state_code MissionState.blocked = 12
mission_state_code MissionState.failed_terminal = 13
mission_state_code MissionState.cancelled = 14

abbrev pub state_is : MissionState → MissionState → Bool
state_is s t = nat_beq (mission_state_code s) (mission_state_code t)

pub data EffectClass : Type 0 where
  read write execution network storage_access module_owner_operation approval communication :
      EffectClass

abbrev effect_class_code : EffectClass → ℕ
effect_class_code EffectClass.read = 0
effect_class_code EffectClass.write = 1
effect_class_code EffectClass.execution = 2
effect_class_code EffectClass.network = 3
effect_class_code EffectClass.storage_access = 4
effect_class_code EffectClass.module_owner_operation = 5
effect_class_code EffectClass.approval = 6
effect_class_code EffectClass.communication = 7

abbrev effect_class_beq : EffectClass → EffectClass → Bool
effect_class_beq a b = nat_beq (effect_class_code a) (effect_class_code b)

effect_class_code-injective :
    (a b : EffectClass) → effect_class_code a ≡ effect_class_code b → a ≡ b
effect_class_code-injective a b h = ground arith

pub effect_class_beq_iff : (a b : EffectClass) → (effect_class_beq a b ≡ true) ↔ (a ≡ b)
effect_class_beq_iff a b = (λ h. effect_class_code-injective a b (ground arith), λ h. ground arith)

instance abbrev pub effect_class_eq : Eq EffectClass
effect_class_eq = record { same = effect_class_beq; same_iff = effect_class_beq_iff }

pub data InvocationStatus : Type 0 where
  pending dispatched running completed failed cancelled blocked : InvocationStatus

abbrev status_code : InvocationStatus → ℕ
status_code InvocationStatus.pending = 0
status_code InvocationStatus.dispatched = 1
status_code InvocationStatus.running = 2
status_code InvocationStatus.completed = 3
status_code InvocationStatus.failed = 4
status_code InvocationStatus.cancelled = 5
status_code InvocationStatus.blocked = 6

abbrev pub status_is : InvocationStatus → InvocationStatus → Bool
status_is s t = nat_beq (status_code s) (status_code t)

-- capabilities/contracts.ts
pub data IdempotencyMode : Type 0 where
  idempotent non_idempotent unknown : IdempotencyMode

pub data RetryBackoff : Type 0 where
  none fixed exponential : RetryBackoff

pub data CancellationSupport : Type 0 where
  none cooperative hard unsupported : CancellationSupport

pub data ReconciliationSupport : Type 0 where
  none status_replay full_replay : ReconciliationSupport

-- The unions of string literals in the records of an invocation.
pub data AttemptState : Type 0 where
  prepared submitted acknowledged failed uncertain : AttemptState

pub data DeliveryState : Type 0 where
  not_submitted submitted acknowledged running failed uncertain : DeliveryState

pub data CancellationState : Type 0 where
  not_requested requested acknowledged unsupported : CancellationState

pub data ReconciliationState : Type 0 where
  not_required pending resolved unsupported : ReconciliationState

pub data ReconciliationOutcome : Type 0 where
  performed not_performed unknown : ReconciliationOutcome

pub data OwnerVerificationState : Type 0 where
  not_required pending verified rejected : OwnerVerificationState

pub data IntentSource : Type 0 where
  katherine mission_control cli api operator : IntentSource

pub data PlanRevisionStatus : Type 0 where
  proposed accepted superseded rejected : PlanRevisionStatus
