-- ===== src/Inference/Retry.antt =====
-- RetryPolicy and the classification of errors of cli/src/inference/provider-resilience.ts. A run of
-- `execute` is told by what its surroundings show: the outcome of each attempt, the clock at each of its
-- readings, and whether the caller's signal is aborted.
pub mod Laws
use ouroboros_runtime.Base.{
  ℕ, zero, suc, ◌+◌, ◌-◌, ◌*◌, ◌^◌, Bool, true, false, not, ◌&&◌, ◌||◌, Option, none, some, List,
  [], ◌∷◌, ltb, leb, if◌then◌else◌, Result, ok, err,
}

pub data ProviderErrorKind : Type 0 where
  authentication : ProviderErrorKind
  authorization : ProviderErrorKind
  invalid_request : ProviderErrorKind
  rate_limit : ProviderErrorKind
  timeout : ProviderErrorKind
  cancellation : ProviderErrorKind
  network : ProviderErrorKind
  http_unavailable : ProviderErrorKind
  provider : ProviderErrorKind
  malformed_response : ProviderErrorKind

pub record ModelProviderError : Type 0 where
  pub kind : ProviderErrorKind
  pub retryable : Bool
  pub retry_after_ms : Option ℕ
  pub fallback_allowed : Bool

-- What a call may throw: an error of the provider, another error, or one of the policy itself.
pub data CallError : Type 0 where
  by_provider : ModelProviderError → CallError
  other_error : CallError
  cancelled : CallError
  budget_exhausted : CallError

pub record RetryClassification : Type 0 where
  pub retryable : Bool
  pub retry_after_ms : Option ℕ
  pub kind : Option ProviderErrorKind
  pub fallback_allowed : Bool

-- NEVER_RETRYABLE_PROVIDER_ERROR_KINDS and MAYBE_RETRYABLE_PROVIDER_ERROR_KINDS
unfoldable pub never_retryable : ProviderErrorKind → Bool
never_retryable ProviderErrorKind.authentication = true
never_retryable ProviderErrorKind.authorization = true
never_retryable ProviderErrorKind.invalid_request = true
never_retryable ProviderErrorKind.timeout = true
never_retryable ProviderErrorKind.cancellation = true
never_retryable ProviderErrorKind.malformed_response = true
never_retryable ProviderErrorKind.provider = true
never_retryable ProviderErrorKind.rate_limit = false
never_retryable ProviderErrorKind.network = false
never_retryable ProviderErrorKind.http_unavailable = false

unfoldable pub maybe_retryable : ProviderErrorKind → Bool
maybe_retryable ProviderErrorKind.rate_limit = true
maybe_retryable ProviderErrorKind.network = true
maybe_retryable ProviderErrorKind.http_unavailable = true
maybe_retryable kind = false

abbrev not_a_provider_error : RetryClassification
not_a_provider_error = record {
  retryable = false;
  retry_after_ms = none;
  kind = none;
  fallback_allowed = false;
}

abbrev final : ModelProviderError → RetryClassification
final e = record {
  retryable = false;
  retry_after_ms = none;
  kind = some e.kind;
  fallback_allowed = e.fallback_allowed;
}

unfoldable pub classify_provider_error : CallError → RetryClassification
unfolding never_retryable maybe_retryable
classify_provider_error (CallError.by_provider e) =
    if never_retryable e.kind
    then final e
    else if not (maybe_retryable e.kind) || not e.retryable
    then final e
    else record {
      retryable = true;
      retry_after_ms = e.retry_after_ms;
      kind = some e.kind;
      fallback_allowed = e.fallback_allowed;
    }
classify_provider_error CallError.other_error = not_a_provider_error
classify_provider_error CallError.cancelled = not_a_provider_error
classify_provider_error CallError.budget_exhausted = not_a_provider_error

pub record RetryPolicy : Type 0 where
  pub max_attempts : ℕ
  pub base_delay_ms : ℕ
  pub max_delay_ms : ℕ
  pub classify_error : CallError → RetryClassification

pub data PolicyError : Type 0 where
  max_attempts_not_positive : PolicyError
  max_delay_below_base_delay : PolicyError

-- `classify_error` is the option of that name, by default classifyProviderError.
unfoldable pub create :
    (max_attempts base_delay_ms max_delay_ms : ℕ)
    → (classify_error : Option (CallError → RetryClassification)) → Result PolicyError RetryPolicy
unfolding classify_provider_error
create max_attempts base_delay_ms max_delay_ms classify_error =
    if ltb max_attempts 1
    then err PolicyError.max_attempts_not_positive
    else if ltb max_delay_ms base_delay_ms
    then err PolicyError.max_delay_below_base_delay
    else ok (record {
      max_attempts = max_attempts;
      base_delay_ms = base_delay_ms;
      max_delay_ms = max_delay_ms;
      classify_error = elim classify_error [ none ↦ classify_provider_error | some given ↦ given ];
    })

unfoldable pub minimum : ℕ → ℕ → ℕ
minimum m n = if leb m n then m else n

-- What the surroundings of one `execute` show at its attempt number `attempt`. `spread` is the jitter,
-- or the identity without one; no `deadline` stands for a call with no budget.
pub record Surroundings (T : Type 0) : Type 0 where
  pub operation : (attempt : ℕ) → Result CallError T
  pub aborted_before : (attempt : ℕ) → Bool
  pub aborted_after : (attempt : ℕ) → Bool
  pub aborted_in_sleep : (attempt : ℕ) → Bool
  pub clock_before : (attempt : ℕ) → ℕ
  pub clock_after : (attempt : ℕ) → ℕ
  pub clock_woken : (attempt : ℕ) → ℕ
  pub spread : (attempt : ℕ) → ℕ → ℕ
  pub deadline : Option ℕ

-- What `execute` did: which attempts it made and how long it asked to sleep after them.
pub record Execution (T : Type 0) : Type 0 where
  pub attempts : List ℕ
  pub sleeps : List ℕ
  pub outcome : Result CallError T

-- `budget.assert()` throws.
abbrev pub is_exhausted : Option ℕ → (now : ℕ) → Bool
is_exhausted none now = false
is_exhausted (some deadline) now = leb deadline now

module _ {T : Type 0} where
  abbrev pub stops : (attempt : ℕ) → (sleeps : List ℕ) → Result CallError T → Execution T
  stops attempt sleeps outcome = record {
    attempts = attempt ∷ [];
    sleeps = sleeps;
    outcome = outcome;
  }

  -- The attempt and its sleep, then what the rest of the loop does.
  abbrev pub goes_on : (attempt sleep : ℕ) → Execution T → Execution T
  goes_on attempt sleep rest = record {
    attempts = attempt ∷ rest.attempts;
    sleeps = sleep ∷ rest.sleeps;
    outcome = rest.outcome;
  }

  abbrev pub gives_up : CallError → Execution T
  gives_up e = record { attempts = []; sleeps = []; outcome = err e }

module _ (policy : RetryPolicy) where
  unfoldable pub backoff_delay : (attempt : ℕ) → ℕ
  unfolding minimum
  backoff_delay attempt = minimum policy.max_delay_ms (policy.base_delay_ms * 2 ^ (attempt - 1))

  module _ {T : Type 0} (world : Surroundings T) where
    abbrev pub delay_after : (attempt : ℕ) → RetryClassification → ℕ
    delay_after attempt c = elim c.retry_after_ms [
      | none ↦ world.spread attempt (backoff_delay attempt)
      | some wanted ↦ wanted
    ]

    -- The sleep that sleepBetweenAttempts asks for, when it does not throw before.
    unfoldable pub sleep_time : (attempt : ℕ) → RetryClassification → ℕ
    unfolding backoff_delay minimum
    sleep_time attempt c = elim world.deadline [
      | none ↦ delay_after attempt c
      | some deadline ↦ minimum (delay_after attempt c) (deadline - world.clock_after attempt)
    ]

    -- sleepBetweenAttempts, and the loop after it.
    unfoldable pub sleep_and_go_on : (attempt : ℕ) → RetryClassification → Execution T → Execution T
    unfolding sleep_time
    sleep_and_go_on attempt c rest =
        let sleep = sleep_time attempt c in
        if is_exhausted world.deadline (world.clock_after attempt)
        then stops attempt [] (err CallError.budget_exhausted)
        else if world.aborted_in_sleep attempt
        then stops attempt (sleep ∷ []) (err CallError.cancelled)
        else if is_exhausted world.deadline (world.clock_woken attempt)
        then stops attempt (sleep ∷ []) (err CallError.budget_exhausted)
        else goes_on attempt sleep rest

    -- The body of the loop once the attempt is made; `rest` is the loop after the attempt failed.
    unfoldable pub after_attempt :
        (attempt : ℕ) → Result CallError T → (CallError → Execution T) → Execution T
    unfolding sleep_and_go_on
    after_attempt attempt (ok t) rest = stops attempt [] (ok t)
    after_attempt attempt (err e) rest =
        let c = policy.classify_error e in
        if world.aborted_after attempt
        then stops attempt [] (err CallError.cancelled)
        else if not c.retryable || leb policy.max_attempts attempt
        then stops attempt [] (err e)
        else sleep_and_go_on attempt c (rest e)

    -- The loop, with the rounds that it has left and the last error.
    unfoldable pub loop : (rounds attempt : ℕ) → (last : CallError) → Execution T
    unfolding after_attempt
    loop zero attempt last = gives_up last
    loop (suc rounds) attempt last =
        let rest = loop rounds (suc attempt) in
        if world.aborted_before attempt
        then gives_up CallError.cancelled
        else if is_exhausted world.deadline (world.clock_before attempt)
        then gives_up CallError.budget_exhausted
        else after_attempt attempt (world.operation attempt) rest

    unfoldable pub execute : Execution T
    unfolding loop
    execute = loop policy.max_attempts 1 CallError.other_error
