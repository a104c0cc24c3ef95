-- ===== src/Inference/Quota.antt =====
-- ProviderQuotaLimiter of cli/src/inference/provider-resilience.ts. `now` is the clock's reading, and a
-- key is the `quota_key` of an identity. Readings and settings are whole numbers; tokens are numbers of
-- JavaScript, whose arithmetic is a parameter. The rounded number of remaining tokens that an admission
-- reports is left out.
pub mod Calls
pub mod Rounding
pub mod Steps
pub mod Laws
pub mod Told
use ouroboros_runtime.Base.{
  ℕ, ◌+◌, ◌-◌, max, Bool, true, false, Option, none, some, ltb, if◌then◌else◌, Result, ok, err,
  ◌>>=◌, ◌>>◌, reject_if,
}
use ouroboros_runtime.Base.Text.{Text}
use ouroboros_runtime.Inference.Limiter.{set}

-- The floating point numbers that occur, which are finite and not negative while readings and settings
-- are safe integers, and the operations of the code on them.
pub record Numbers : Type 1 where
  pub Number : Type 0
  pub whole : ℕ → Number
  pub plus : Number → Number → Number
  pub minus : Number → Number → Number
  pub times : Number → Number → Number
  pub over : Number → Number → Number
  pub is_below : Number → Number → Bool
  pub ceil : Number → ℕ

pub data QuotaError : Type 0 where
  not_positive : QuotaError
  clock_moved_backwards : QuotaError

pub data QuotaAdmission : Type 0 where
  allowed : QuotaAdmission
  rate_limit : (next_eligible_at : ℕ) → QuotaAdmission

pub record QuotaBucket (Number : Type 0) : Type 0 where
  pub tokens : Number
  pub last_refill_at : ℕ
  pub next_eligible_at : Option ℕ

pub record ProviderQuotaLimiter (Number : Type 0) : Type 0 where
  pub buckets : Text → Option (QuotaBucket Number)
  pub capacity : ℕ
  pub refill_tokens : ℕ
  pub refill_interval_ms : ℕ

-- `nextEligibleAt !== undefined && now < nextEligibleAt`
unfoldable pub is_deferred : (now : ℕ) → Option ℕ → Bool
is_deferred now none = false
is_deferred now (some at) = ltb now at

-- `nextEligibleAt ?? 0`
unfoldable pub or_zero : Option ℕ → ℕ
or_zero none = 0
or_zero (some at) = at

module _ (numbers : Numbers) where
  abbrev Bucket : Type 0
  Bucket = QuotaBucket numbers.Number

  abbrev Limiter : Type 0
  Limiter = ProviderQuotaLimiter numbers.Number

  unfoldable pub create :
      (capacity refill_tokens refill_interval_ms : ℕ) → Result QuotaError Limiter
  create capacity refill_tokens refill_interval_ms =
      reject_if (ltb capacity 1) QuotaError.not_positive
      >> reject_if (ltb refill_tokens 1) QuotaError.not_positive
      >> reject_if (ltb refill_interval_ms 1) QuotaError.not_positive
      >> ok (record {
        buckets = λ key. none;
        capacity = capacity;
        refill_tokens = refill_tokens;
        refill_interval_ms = refill_interval_ms;
      })

  -- A bucket that is missing is full.
  unfoldable pub bucket_for : Limiter → (now : ℕ) → Option Bucket → Bucket
  bucket_for l now (some existing) = existing
  bucket_for l now none = record {
    tokens = numbers.whole l.capacity;
    last_refill_at = now;
    next_eligible_at = none;
  }

  -- `Math.min`
  unfoldable pub minimum : numbers.Number → numbers.Number → numbers.Number
  minimum x y = if numbers.is_below y x then y else x

  -- `elapsed * refillTokens / refillIntervalMs`
  unfoldable pub refilled_tokens : Limiter → (elapsed : ℕ) → numbers.Number
  refilled_tokens l elapsed =
      numbers.over (numbers.times (numbers.whole elapsed) (numbers.whole l.refill_tokens))
        (numbers.whole l.refill_interval_ms)

  unfoldable pub refill : Limiter → (now : ℕ) → Bucket → Result QuotaError Bucket
  unfolding is_deferred minimum refilled_tokens
  refill l now b =
      let elapsed = now - b.last_refill_at in
      let filled = numbers.plus b.tokens (refilled_tokens l elapsed) in
      reject_if (ltb now b.last_refill_at) QuotaError.clock_moved_backwards
      >> ok (record {
        tokens = if ltb 0 elapsed then minimum (numbers.whole l.capacity) filled else b.tokens;
        last_refill_at = if ltb 0 elapsed then now else b.last_refill_at;
        next_eligible_at = if is_deferred now b.next_eligible_at then b.next_eligible_at else none;
      })

  unfoldable pub time_until_next_token : Limiter → (tokens : numbers.Number) → ℕ
  time_until_next_token l tokens = max 1 (
      numbers.ceil (
        numbers.over
          (numbers.times (numbers.minus (numbers.whole 1) tokens)
            (numbers.whole l.refill_interval_ms))
          (numbers.whole l.refill_tokens)))

  -- `tryAcquire` from the test of the cooldown on, on a refilled bucket.
  unfoldable pub take_token : Limiter → (now : ℕ) → Bucket → QuotaAdmission × Bucket
  unfolding is_deferred time_until_next_token or_zero
  take_token l now b =
      let eligible = max (now + time_until_next_token l b.tokens) (or_zero b.next_eligible_at) in
      if is_deferred now b.next_eligible_at
      then (QuotaAdmission.rate_limit (or_zero b.next_eligible_at), b)
      else if numbers.is_below b.tokens (numbers.whole 1)
      then (QuotaAdmission.rate_limit eligible, record b { next_eligible_at = some eligible })
      else (
        QuotaAdmission.allowed,
        record b { tokens = numbers.minus b.tokens (numbers.whole 1); next_eligible_at = none },
      )

  unfoldable pub try_acquire_key :
      (key : Text) (now : ℕ) → Limiter → Result QuotaError (QuotaAdmission × Limiter)
  unfolding bucket_for refill take_token
  try_acquire_key key now l = refill l now (bucket_for l now (l.buckets key)) >>= λ b.
      let (admission, left) = take_token l now b in
      ok (admission, record l { buckets = set key (some left) l.buckets })

  unfoldable pub defer_key :
      (key : Text) (next_eligible_at now : ℕ) → Limiter → Result QuotaError Limiter
  unfolding bucket_for refill or_zero
  defer_key key next_eligible_at now l = refill l now (bucket_for l now (l.buckets key)) >>= λ b.
      ok (record l {
        buckets =
            set key
              (some (record b {
                next_eligible_at = some (max (or_zero b.next_eligible_at) next_eligible_at);
              }))
              l.buckets;
      })
