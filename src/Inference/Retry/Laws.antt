-- ===== src/Inference/Retry/Laws.antt =====
-- What a retried call does, by cli/src/inference/provider-resilience.ts.
use ouroboros_runtime.Base.{
  ℕ, zero, suc, ◌+◌, ◌≤◌, ◌≡◌, refl, subst, ◌⊎◌, inl, inr, true, false, Option, none, some, [], ◌∷◌,
  leb, Result, ok, err, Bool-cases, arith,
}
use ouroboros_runtime.Inference.Retry.{
  ProviderErrorKind, CallError, RetryClassification, RetryPolicy, Surroundings, Execution,
  never_retryable, maybe_retryable, classify_provider_error, minimum, sleep_time, sleep_and_go_on,
  after_attempt, loop, execute, is_exhausted, stops, goes_on, gives_up,
}

-- By the default classification an error lets the call be tried again: a kind that may be, and that the provider says may be.
abbrev pub MayRetry : CallError → Type 0
MayRetry (CallError.by_provider e) =
    ((e.kind ≡ ProviderErrorKind.rate_limit)
      ⊎ ((e.kind ≡ ProviderErrorKind.network) ⊎ (e.kind ≡ ProviderErrorKind.http_unavailable)))
    × (e.retryable ≡ true)
MayRetry CallError.other_error = ⊥
MayRetry CallError.cancelled = ⊥
MayRetry CallError.budget_exhausted = ⊥

pub retryable-MayRetry : (e : CallError) → (classify_provider_error e).retryable ≡ true → MayRetry e
unfolding classify_provider_error never_retryable maybe_retryable
retryable-MayRetry (CallError.by_provider e) h = ground arith
retryable-MayRetry CallError.other_error h = cc
retryable-MayRetry CallError.cancelled h = cc
retryable-MayRetry CallError.budget_exhausted h = cc

Result-cases :
    {T : Type 0} (r : Result CallError T) → ((t : T) × (r ≡ ok t)) ⊎ ((e : CallError) × (r ≡ err e))
Result-cases (ok t) = inl (t, refl)
Result-cases (err e) = inr (e, refl)

-- A sleep that starts at `now` ends by the deadline.
abbrev pub EndsBy : Option ℕ → (now sleep : ℕ) → Type 0
EndsBy none now sleep = Unit
EndsBy (some deadline) now sleep = now + sleep ≤ deadline

-- An error of the policy itself, which ends the call.
abbrev pub IsFinal : CallError → Type 0
IsFinal e = (e ≡ CallError.cancelled) ⊎ (e ≡ CallError.budget_exhausted)

module _ (Retries : CallError → Type 0) {T : Type 0} (world : Surroundings T) where
  -- The execution that the loop is to show, tried again after the errors in `Retries` only, when it may make `rounds` attempts from number `attempt` on.
  pub data Ran : (rounds attempt : ℕ) → Execution T → Type 0 where
    given_up : {rounds attempt : ℕ} {e : CallError} → IsFinal e → Ran rounds attempt (gives_up e)
    answered :
        {rounds attempt : ℕ} {t : T}
        → world.operation attempt ≡ ok t
        → Ran (suc rounds) attempt (stops attempt [] (ok t))
    failed :
        {rounds attempt : ℕ} {e thrown : CallError}
        → world.operation attempt ≡ err e
        → (thrown ≡ e) ⊎ IsFinal thrown
        → Ran (suc rounds) attempt (stops attempt [] (err thrown))
    failed_asleep :
        {rounds attempt sleep : ℕ} {e thrown : CallError}
        → world.operation attempt ≡ err e
        → Retries e
        → EndsBy world.deadline (world.clock_after attempt) sleep
        → IsFinal thrown
        → Ran (suc rounds) attempt (stops attempt (sleep ∷ []) (err thrown))
    retried :
        {rounds attempt sleep : ℕ} {e : CallError} {rest : Execution T}
        → world.operation attempt ≡ err e
        → Retries e
        → EndsBy world.deadline (world.clock_after attempt) sleep
        → Ran (suc rounds) (suc attempt) rest
        → Ran (suc (suc rounds)) attempt (goes_on attempt sleep rest)

sleep_time-EndsBy :
    (policy : RetryPolicy) {T : Type 0} (world : Surroundings T) (attempt : ℕ)
    (c : RetryClassification)
    → is_exhausted world.deadline (world.clock_after attempt) ≡ false
    → EndsBy world.deadline (world.clock_after attempt) (sleep_time policy world attempt c)
unfolding sleep_time minimum
sleep_time-EndsBy policy world attempt c h = ground arith

module _ (Retries : CallError → Type 0) (policy : RetryPolicy)
    (classified : (e : CallError) → (policy.classify_error e).retryable ≡ true → Retries e)
    {T : Type 0} (world : Surroundings T) where
  Ran-sleep :
      (rounds attempt : ℕ) (e : CallError) (rest : Execution T)
      → world.operation attempt ≡ err e
      → Retries e
      → Ran Retries world (suc rounds) (suc attempt) rest
      → Ran Retries world
          (suc (suc rounds))
          attempt
          (sleep_and_go_on policy world attempt (policy.classify_error e) rest)
  unfolding sleep_and_go_on
  Ran-sleep rounds attempt e rest failure may r =
      elim (Bool-cases (is_exhausted world.deadline (world.clock_after attempt))) [
        | inl t ↦ rw (sleep_and_go_on, t) (Ran.failed failure (inr (inr refl)))
        | inr f ↦
            let ends = sleep_time-EndsBy policy world attempt (policy.classify_error e) f in
            elim (Bool-cases (world.aborted_in_sleep attempt)) [
              | inl t ↦ rw (sleep_and_go_on, f, t) (Ran.failed_asleep failure may ends (inl refl))
              | inr g ↦
                  elim (Bool-cases (is_exhausted world.deadline (world.clock_woken attempt))) [
                    | inl t ↦
                        rw (sleep_and_go_on, f, g, t)
                          (Ran.failed_asleep failure may ends (inr refl))
                    | inr k ↦ rw (sleep_and_go_on, f, g, k) (Ran.retried failure may ends r)
                  ]
            ]
      ]

  -- The attempt failed with an error that lets it be tried again.
  Ran-retryable :
      (rounds attempt : ℕ) (e : CallError) (rest : CallError → Execution T)
      → attempt + rounds ≡ policy.max_attempts
      → world.operation attempt ≡ err e
      → world.aborted_after attempt ≡ false
      → (policy.classify_error e).retryable ≡ true
      → ((n : ℕ) → rounds ≡ suc n → Ran Retries world (suc n) (suc attempt) (rest e))
      → Ran Retries world (suc rounds) attempt (after_attempt policy world attempt (err e) rest)
  unfolding after_attempt
  Ran-retryable zero attempt e rest left h f t r =
      let over : leb policy.max_attempts attempt ≡ true = ground arith in
      rw (after_attempt, f, t, over) (Ran.failed h (inl refl))
  Ran-retryable (suc n) attempt e rest left h f t r =
      let over : leb policy.max_attempts attempt ≡ false = ground arith in
      rw (after_attempt, f, t, over) (Ran-sleep n attempt e (rest e) h (classified e t) (r n refl))

  Ran-after_attempt :
      (rounds attempt : ℕ) (rest : CallError → Execution T)
      → attempt + rounds ≡ policy.max_attempts
      → ((n : ℕ)
          → rounds ≡ suc n
          → (e : CallError) → Ran Retries world (suc n) (suc attempt) (rest e))
      → Ran Retries world
          (suc rounds)
          attempt
          (after_attempt policy world attempt (world.operation attempt) rest)
  unfolding after_attempt
  Ran-after_attempt rounds attempt rest left r = elim (Result-cases (world.operation attempt)) [
    | inl (t, h) ↦ rw (after_attempt, h) (Ran.answered h)
    | inr (e, h) ↦ elim (Bool-cases (world.aborted_after attempt)) [
      | inl t ↦ rw (after_attempt, h, t) (Ran.failed h (inr (inl refl)))
      | inr f ↦ elim (Bool-cases ((policy.classify_error e).retryable)) [
        | inl t ↦ rw h (Ran-retryable rounds attempt e rest left h f t (λ n same. r n same e))
        | inr g ↦ rw (after_attempt, h, f, g) (Ran.failed h (inl refl))
      ]
    ]
  ]

  Ran-round :
      (rounds attempt : ℕ) (last : CallError)
      → attempt + rounds ≡ policy.max_attempts
      → ((n : ℕ)
          → rounds ≡ suc n
          → (e : CallError)
          → Ran Retries world (suc n) (suc attempt) (loop policy world rounds (suc attempt) e))
      → Ran Retries world (suc rounds) attempt (loop policy world (suc rounds) attempt last)
  unfolding loop
  Ran-round rounds attempt last left later = elim (Bool-cases (world.aborted_before attempt)) [
    | inl t ↦ rw (loop, t) (Ran.given_up (inl refl))
    | inr f ↦ elim (Bool-cases (is_exhausted world.deadline (world.clock_before attempt))) [
      | inl t ↦ rw (loop, f, t) (Ran.given_up (inr refl))
      | inr g ↦
          rw (loop, f, g)
            (Ran-after_attempt rounds attempt (loop policy world rounds (suc attempt)) left later)
    ]
  ]

  Ran-loop :
      (rounds attempt : ℕ) (last : CallError)
      → attempt + rounds ≡ policy.max_attempts
      → Ran Retries world (suc rounds) attempt (loop policy world (suc rounds) attempt last)
  Ran-loop zero attempt last left =
      Ran-round zero attempt last left (λ n same e. absurd (omega (arith, same)))
  Ran-loop (suc k) attempt last left = Ran-round (suc k) attempt last left λ n same e.
      subst (λ m. Ran Retries world m (suc attempt) (loop policy world (suc k) (suc attempt) e))
        same (Ran-loop k (suc attempt) e (omega (arith, left)))

  -- Where the policy's classifier takes no error for retryable but those in `Retries`, a call is tried at
  -- most `max_attempts` times, at least one being allowed, and again only after an error in `Retries`; no sleep in between goes past the deadline; and it ends with the first result, with the last
  -- error, or because it was cancelled or its budget was spent.
  pub execute-Ran :
      1 ≤ policy.max_attempts → Ran Retries world policy.max_attempts 1 (execute policy world)
  unfolding execute
  execute-Ran positive = execute_by policy.max_attempts refl positive
    where
      execute_by :
          (rounds : ℕ)
          → rounds ≡ policy.max_attempts
          → 1 ≤ rounds
          → Ran Retries world rounds 1 (loop policy world rounds 1 CallError.other_error)
      execute_by zero same h = absurd (omega (arith, h))
      execute_by (suc k) same h = Ran-loop k 1 CallError.other_error (omega (arith, same))
