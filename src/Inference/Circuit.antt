-- ===== src/Inference/Circuit.antt =====
-- CircuitBreaker of cli/src/inference/provider-resilience.ts. A permit is an object that the WeakMap of
-- leases knows by its identity, here a number that no other permit has. A caller may hand back any
-- permit, also one that it made up. Each call gets the moment that the clock shows it.
pub mod Calls
pub mod Probe
pub mod Leases
pub mod Once
pub mod Phases
pub mod Refine
pub mod Cooldown
use ouroboros_runtime.Base.{
  ℕ, suc, ◌+◌, max, Bool, true, false, not, ◌&&◌, ◌||◌, Option, none, some, List, [], ◌∷◌, ◌++◌,
  keep, find?, ltb, leb, nat_beq, if◌then◌else◌, Result, ok, err, ◌>>=◌, ◌>>◌, reject_if,
}

-- `tripped` is the state "open".
pub data CircuitState : Type 0 where
  closed : CircuitState
  half_open : CircuitState
  tripped : CircuitState

abbrev pub state_code : CircuitState → ℕ
state_code CircuitState.closed = 0
state_code CircuitState.tripped = 1
state_code CircuitState.half_open = 2

abbrev pub state_is : CircuitState → CircuitState → Bool
state_is s t = nat_beq (state_code s) (state_code t)

pub record CircuitPermit : Type 0 where
  pub identity : ℕ
  pub allowed : Bool
  pub state : CircuitState
  pub next_attempt_at : Option ℕ

pub record Lease : Type 0 where
  pub holder : ℕ
  pub generation : ℕ
  pub mode : CircuitState

-- `permits` counts the permits made so far.
pub record CircuitBreaker : Type 0 where
  pub failure_threshold : ℕ
  pub cooldown_ms : ℕ
  pub state : CircuitState
  pub consecutive_failures : ℕ
  pub next_attempt_at : Option ℕ
  pub probe_in_flight : Bool
  pub generation : ℕ
  pub active_probe : Option ℕ
  pub leases : List Lease
  pub permits : ℕ
  pub transition_waiters : List ℕ

pub record CircuitBreakerSnapshot : Type 0 where
  pub state : CircuitState
  pub consecutive_failures : ℕ
  pub next_attempt_at : Option ℕ
  pub probe_in_flight : Bool

pub data CircuitError : Type 0 where
  not_positive : CircuitError

unfoldable pub create : (failure_threshold cooldown_ms : ℕ) → Result CircuitError CircuitBreaker
create failure_threshold cooldown_ms =
    reject_if (ltb failure_threshold 1) CircuitError.not_positive
    >> reject_if (ltb cooldown_ms 1) CircuitError.not_positive
    >> ok (record {
      failure_threshold = failure_threshold;
      cooldown_ms = cooldown_ms;
      state = CircuitState.closed;
      consecutive_failures = 0;
      next_attempt_at = none;
      probe_in_flight = false;
      generation = 0;
      active_probe = none;
      leases = [];
      permits = 0;
      transition_waiters = [];
    })

-- All that wait are woken, and wait no longer.
abbrev pub notify_transition : CircuitBreaker → CircuitBreaker
notify_transition c = record c { transition_waiters = [] }

-- waitForTransition up to its await.
abbrev pub wait_for_transition : (waiter : ℕ) → CircuitBreaker → CircuitBreaker
wait_for_transition waiter c = record c { transition_waiters = c.transition_waiters ++ waiter ∷ [] }

-- The private `open`.
abbrev pub trip : (now : ℕ) → CircuitBreaker → CircuitBreaker
trip now c = record c {
  generation = suc c.generation;
  state = CircuitState.tripped;
  next_attempt_at = some (now + c.cooldown_ms);
  probe_in_flight = false;
  active_probe = none;
}

abbrev pub close_after_uncounted_probe : CircuitBreaker → CircuitBreaker
close_after_uncounted_probe c = notify_transition (record c {
  generation = suc c.generation;
  state = CircuitState.closed;
  consecutive_failures = 0;
  next_attempt_at = none;
  probe_in_flight = false;
  active_probe = none;
})

abbrev pub create_permit : (mode : CircuitState) → CircuitBreaker → CircuitPermit × CircuitBreaker
create_permit mode c = (
  record { identity = c.permits; allowed = true; state = mode; next_attempt_at = none },
  record c {
    leases = record { holder = c.permits; generation = c.generation; mode = mode } ∷ c.leases;
    permits = suc c.permits;
  },
)

-- A permit that is refused is an object too, but it gets no lease.
abbrev pub refuse :
    (state : CircuitState) (next : Option ℕ) → CircuitBreaker → CircuitPermit × CircuitBreaker
refuse state next c = (
  record { identity = c.permits; allowed = false; state = state; next_attempt_at = next },
  record c { permits = suc c.permits },
)

-- The single probe of a half-open circuit, reserved for the caller.
abbrev pub reserve_probe : CircuitBreaker → CircuitPermit × CircuitBreaker
reserve_probe c =
    create_permit CircuitState.half_open
      (record c { probe_in_flight = true; active_probe = some c.permits })

abbrev pub is_cooling : (now : ℕ) → Option ℕ → Bool
is_cooling now none = false
is_cooling now (some next) = ltb now next

unfoldable pub before_request : (now : ℕ) → CircuitBreaker → CircuitPermit × CircuitBreaker
before_request now c = elim c.state [
  | CircuitState.closed ↦ create_permit CircuitState.closed c
  | CircuitState.tripped ↦
      if is_cooling now c.next_attempt_at
      then refuse CircuitState.tripped c.next_attempt_at c
      else let (permit, next) =
          reserve_probe
            (record c { state = CircuitState.half_open; generation = suc c.generation }) in
        (permit, notify_transition next)
  | CircuitState.half_open ↦
      if c.probe_in_flight then refuse CircuitState.half_open (some now) c else reserve_probe c
]

abbrev pub is_probe : Option ℕ → ℕ → Bool
is_probe none key = false
is_probe (some k) key = nat_beq k key

abbrev pub held_by : ℕ → Lease → Bool
held_by key lease = nat_beq lease.holder key

-- A completion counts once, in the generation and the state that admitted it, and in a half-open
-- circuit for the active probe only.
abbrev pub is_honoured : CircuitBreaker → Lease → Bool
is_honoured c lease =
    nat_beq lease.generation c.generation
    && (state_is lease.mode c.state
        && (not (state_is lease.mode CircuitState.half_open)
            || is_probe c.active_probe lease.holder))

unfoldable pub consume_permit : CircuitPermit → CircuitBreaker → Bool × CircuitBreaker
consume_permit permit c = elim (find? (held_by permit.identity) c.leases) [
  | none ↦ (false, c)
  | some lease ↦ (
    is_honoured c lease,
    record c { leases = keep (λ l. not (held_by permit.identity l)) c.leases },
  )
]

abbrev pub is_half_open : CircuitPermit → Bool
is_half_open permit = state_is permit.state CircuitState.half_open

unfoldable pub record_success : CircuitPermit → CircuitBreaker → CircuitBreaker
record_success permit c =
    let (honoured, next) = consume_permit permit c in
    if honoured
    then notify_transition (record next {
      generation = if is_half_open permit then suc next.generation else next.generation;
      state = CircuitState.closed;
      consecutive_failures = 0;
      next_attempt_at = none;
      probe_in_flight = false;
      active_probe = none;
    })
    else next

abbrev pub count_failure : (now : ℕ) → CircuitBreaker → CircuitBreaker
count_failure now c =
    let counted = record c { consecutive_failures = suc c.consecutive_failures } in
    notify_transition
      (if leb c.failure_threshold (suc c.consecutive_failures) then trip now counted else counted)

unfoldable pub record_failure :
    (now : ℕ) → CircuitPermit → (counted : Bool) → CircuitBreaker → CircuitBreaker
record_failure now permit counted c =
    let (honoured, next) = consume_permit permit c in
    if not honoured
    then next
    else if not counted
    then (if is_half_open permit then close_after_uncounted_probe next else next)
    else if is_half_open permit
    then notify_transition (trip now next)
    else count_failure now next

unfoldable pub cancel_probe : (now : ℕ) → CircuitPermit → CircuitBreaker → CircuitBreaker
cancel_probe now permit c =
    let (honoured, next) = consume_permit permit c in
    if not honoured || not (is_half_open permit) then next else notify_transition (trip now next)

unfoldable pub release_probe : CircuitPermit → CircuitBreaker → CircuitBreaker
release_probe permit c =
    let (honoured, next) = consume_permit permit c in
    if not honoured || not (is_half_open permit)
    then next
    else notify_transition (record next { probe_in_flight = false; active_probe = none })

unfoldable pub snapshot : CircuitBreaker → CircuitBreakerSnapshot
snapshot c = record {
  state = c.state;
  consecutive_failures = c.consecutive_failures;
  next_attempt_at = c.next_attempt_at;
  probe_in_flight = c.probe_in_flight;
}

abbrev pub or_zero : Option ℕ → ℕ
or_zero none = 0
or_zero (some n) = n

-- The numbers of a snapshot are whole here, so that its checks on them cannot fail.
unfoldable pub restore : (now : ℕ) → CircuitBreakerSnapshot → CircuitBreaker → CircuitBreaker
restore now s c =
    let next = record c {
      generation = suc c.generation;
      active_probe = none;
      consecutive_failures = s.consecutive_failures;
      probe_in_flight = false;
    } in
    notify_transition (
      if state_is s.state CircuitState.half_open
      then record next {
        state = CircuitState.tripped;
        next_attempt_at = some (max (or_zero s.next_attempt_at) (now + c.cooldown_ms));
      }
      else record next { state = s.state; next_attempt_at = s.next_attempt_at })
