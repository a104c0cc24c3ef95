-- ===== src/Inference/Tests.antt =====
-- The theorems on circuit breakers, retries and concurrency limits at small inputs.
use ouroboros_runtime.Base.{
  ℕ, zero, suc, ◌+◌, ◌-◌, ◌*◌, ◌/◌, ◌≤◌, ◌<◌, ltb, ◌≡◌, refl, true, false, none, some, List, [],
  ◌∷◌, Result, ok, err, arith,
}
use ouroboros_runtime.Inference.Circuit.{
  CircuitBreaker, CircuitState, CircuitPermit, before_request, consume_permit, record_failure,
}
use ouroboros_runtime.Inference.Circuit.Calls.{Call, perform, perform_all}
use ouroboros_runtime.Inference.Circuit.Phases.{phase, Runs, IsSound}
use ouroboros_runtime.Inference.Circuit.Refine.{perform_all-Runs}
use ouroboros_runtime.Inference.Circuit.Probe.{single_probe}
use ouroboros_runtime.Inference.Circuit.Once.{counts_once}
use ouroboros_runtime.Inference.Circuit.Cooldown.{refused_until}
use ouroboros_runtime.Inference.Retry.{
  RetryPolicy, Surroundings, CallError, ProviderErrorKind, execute, classify_provider_error,
}
use ouroboros_runtime.Inference.Retry.Laws.{MayRetry, retryable-MayRetry, Ran, execute-Ran}
use ouroboros_runtime.Inference.Limiter.{ProviderConcurrencyLimiter, create, quota_key}
use ouroboros_runtime.Inference.Limiter.Laws.{
  IsBounded, create-IsBounded, HasNoSeparator, perform_all-isolated,
}
use ouroboros_runtime.Inference.Limiter.Laws
use ouroboros_runtime.Inference.Quota.{Numbers, ProviderQuotaLimiter, QuotaBucket, try_acquire_key}
use ouroboros_runtime.Inference.Quota.Rounding.{Rounding}
use ouroboros_runtime.Inference.Quota.Steps.{Spends}
use ouroboros_runtime.Inference.Quota.Laws.{perform_all-Spends}
use ouroboros_runtime.Inference.Quota.Told.{told-admitted}
use ouroboros_runtime.Inference.Quota.Calls as Quota
use native.Mathlib.Nat.{div-add-mod}
use ouroboros_runtime.Inference.Limiter.{set}

abbrev serving : CircuitBreaker
serving = record {
  failure_threshold = 2;
  cooldown_ms = 50;
  state = CircuitState.closed;
  consecutive_failures = 1;
  next_attempt_at = none;
  probe_in_flight = false;
  generation = 0;
  active_probe = none;
  leases = [];
  permits = 0;
  transition_waiters = [];
}

abbrev closed_permit : ℕ → CircuitPermit
closed_permit key = record {
  identity = key;
  allowed = true;
  state = CircuitState.closed;
  next_attempt_at = none;
}

-- Two requests, of which the first one fails and trips the circuit, and the second one comes back late.
abbrev late_success : List Call
late_success =
    Call.requests 10
    ∷ Call.requests 11
    ∷ Call.fails 20 (closed_permit 0) true
    ∷ Call.succeeds (closed_permit 1)
    ∷ []

serving-IsSound : IsSound serving
serving-IsSound = record { in_flight = refl; modes = tt }

perform_all-Runs_example :
    Runs 2 50 late_success (phase serving) (phase (perform_all late_success serving))
unfolding perform before_request record_failure consume_permit
perform_all-Runs_example =
    perform_all-Runs late_success serving serving-IsSound
      (tt, (tt, (((λ w. refl), ((λ w. refl), tt)), (((λ w. refl), tt), tt))))

abbrev tripped : CircuitBreaker
tripped = record serving { state = CircuitState.tripped; next_attempt_at = some 70; permits = 2 }

single_probe_example :
    (before_request 90 (
      perform_all
        (Call.succeeds (closed_permit 1) ∷ Call.requests 80 ∷ [])
        (before_request 75 tripped).1)).0.allowed
    ≡ false
unfolding before_request
single_probe_example =
    single_probe tripped 75 (Call.succeeds (closed_permit 1) ∷ Call.requests 80 ∷ []) 90 (λ e. cc)
      refl ((omega arith), (tt, tt))

tripped-IsSound : IsSound tripped
tripped-IsSound = record { in_flight = refl; modes = tt }

refused_until_example :
    (before_request 69
      (perform_all (Call.requests 60 ∷ Call.succeeds (closed_permit 1) ∷ []) tripped)).0.allowed
    ≡ false
refused_until_example =
    refused_until 70 (Call.requests 60 ∷ Call.succeeds (closed_permit 1) ∷ []) tripped 69
      tripped-IsSound refl refl ((omega arith), (tt, tt)) (omega arith)

abbrev admitted : CircuitBreaker
admitted = (before_request 10 serving).1

counts_once_example :
    let d =
      perform_all (Call.requests 30 ∷ []) (perform (Call.succeeds (closed_permit 0)) admitted) in
    perform (Call.fails 40 (closed_permit 0) true) d ≡ d
unfolding before_request
counts_once_example =
    counts_once 0 (Call.succeeds (closed_permit 0)) (Call.fails 40 (closed_permit 0) true)
      (Call.requests 30 ∷ []) admitted refl refl (omega arith)

abbrev flaky : ℕ → Result CallError ℕ
flaky (suc zero) = err (
    CallError.by_provider record {
      kind = ProviderErrorKind.network;
      retryable = true;
      retry_after_ms = some 40;
      fallback_allowed = false;
    })
flaky attempt = ok attempt

abbrev world : Surroundings ℕ
world = record {
  operation = flaky;
  aborted_before = λ attempt. false;
  aborted_after = λ attempt. false;
  aborted_in_sleep = λ attempt. false;
  clock_before = λ attempt. 0;
  clock_after = λ attempt. 5;
  clock_woken = λ attempt. 45;
  spread = λ attempt delay. delay;
  deadline = some 100;
}

abbrev policy : RetryPolicy
policy = record {
  max_attempts = 3;
  base_delay_ms = 100;
  max_delay_ms = 1000;
  classify_error = classify_provider_error;
}

execute-Ran_example : Ran MayRetry world 3 1 (execute policy world)
execute-Ran_example = execute-Ran MayRetry policy retryable-MayRetry world (omega arith)

abbrev idle : ProviderConcurrencyLimiter
idle = record { max_concurrency = 1; in_flight = λ k. 0; waiters = λ k. [] }

abbrev busy : List Laws.Call
busy =
    Laws.Call.acquires (1 ∷ 0 ∷ 3 ∷ []) 1
    ∷ Laws.Call.acquires (1 ∷ 0 ∷ 3 ∷ []) 2
    ∷ Laws.Call.releases (1 ∷ 0 ∷ 3 ∷ [])
    ∷ []

create-IsBounded_example : IsBounded (Laws.perform_all busy idle) (1 ∷ 0 ∷ 3 ∷ [])
unfolding create
create-IsBounded_example = create-IsBounded 1 busy (1 ∷ 0 ∷ 3 ∷ []) refl

perform_all-isolated_example :
    ((Laws.perform_all busy idle).in_flight (2 ∷ 0 ∷ 3 ∷ []) ≡ 0)
    × ((Laws.perform_all busy idle).waiters (2 ∷ 0 ∷ 3 ∷ []) ≡ [])
unfolding quota_key
perform_all-isolated_example =
    perform_all-isolated (1 ∷ []) (3 ∷ []) (2 ∷ []) (3 ∷ []) busy idle refl refl ((λ e. cc), tt)
      ((λ e. cc), tt) (λ e. let first : 1 ∷ [] ≡ 2 ∷ [] = e.0 in cc) (refl, (refl, (refl, tt)))

share_down : (m n d : ℕ) → m * n / d * d ≤ m * (n * 1) + 0 * d
share_down m n d = let whole = div-add-mod (m * n) d in grind arith

-- Whole numbers, and quotients that are rounded down.
abbrev whole_numbers : Numbers
whole_numbers = record {
  Number = ℕ;
  whole = λ n. n;
  plus = λ x y. x + y;
  minus = λ x y. x - y;
  times = λ x y. x * y;
  over = λ x y. x / y;
  is_below = ltb;
  ceil = λ x. x;
}

abbrev rounds_down : Rounding whole_numbers
rounds_down = record {
  unit = 1;
  slack = 0;
  bound = 1000;
  value = λ x. x;
  one_within = omega arith;
  slack_within = omega arith;
  whole_exact = λ n fits. omega arith;
  below_exact = λ x y. refl;
  plus_within = λ x y fits. omega arith;
  minus_within = λ x y less fits. omega arith;
  share_within = λ m n d positive fits. share_down m n d;
}

-- Three requests at once and a fourth when a token is back.
abbrev bucket : QuotaBucket ℕ
bucket = record { tokens = 2; last_refill_at = 100; next_eligible_at = none }

abbrev limiter : ProviderQuotaLimiter ℕ
limiter = record {
  buckets = λ k. some bucket;
  capacity = 2;
  refill_tokens = 1;
  refill_interval_ms = 20;
}

abbrev rush : List Quota.Call
rush =
    Quota.Call.asks (1 ∷ []) 100
    ∷ Quota.Call.asks (1 ∷ []) 100
    ∷ Quota.Call.asks (1 ∷ []) 100
    ∷ Quota.Call.asks (1 ∷ []) 120
    ∷ []

perform_all-Spends_example :
    Spends rounds_down limiter
      (Quota.perform_all whole_numbers rush limiter)
      (1 ∷ [])
      bucket
      (Quota.admitted whole_numbers (1 ∷ []) rush limiter)
      4
perform_all-Spends_example =
    perform_all-Spends rounds_down rush limiter (1 ∷ []) bucket
      (record { positive = omega arith; fits = omega arith }) refl (omega arith)

abbrev drained : ProviderQuotaLimiter ℕ
drained = record limiter { buckets = λ k. some (record bucket { tokens = 0 }) }

abbrev refused : ProviderQuotaLimiter ℕ
refused = record drained {
  buckets =
      set (1 ∷ []) (some (record bucket { tokens = 0; next_eligible_at = some 120 }))
        drained.buckets;
}

-- The caller comes back too early twice, and the provider defers in between.
abbrev impatient : List Quota.Call
impatient =
    Quota.Call.asks (1 ∷ []) 105
    ∷ Quota.Call.defers (1 ∷ []) 110 107
    ∷ Quota.Call.asks (1 ∷ []) 119
    ∷ []

told-admitted_example : (100 < 120) × (Quota.admitted whole_numbers (1 ∷ []) impatient refused ≡ 0)
unfolding try_acquire_key
told-admitted_example =
    told-admitted whole_numbers drained (1 ∷ []) 100 120 impatient {m = refused} refl
      (omega arith, (omega arith, (omega arith, tt)))
