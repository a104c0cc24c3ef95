-- ===== src/Inference/Quota/Calls.antt =====
-- Sequences of calls of the token bucket of cli/src/inference/provider-resilience.ts.
use ouroboros_runtime.Base.{
  ◌≡◌, refl, ◌⊎◌, inl, inr, ==_iff, ℕ, ◌+◌, List, [], ◌∷◌, if◌then◌else◌, ◌==◌, Result, ok, err,
}
use ouroboros_runtime.Base.Text.{Text, text_eq}
use ouroboros_runtime.Inference.Limiter.{set}
use ouroboros_runtime.Inference.Quota.{
  Numbers, ProviderQuotaLimiter, QuotaAdmission, QuotaError, try_acquire_key, defer_key,
}

pub result-cases :
    {E A : Type 0} (r : Result E A) → ((e : E) × (r ≡ err e)) ⊎ ((a : A) × (r ≡ ok a))
result-cases (err e) = inl (e, refl)
result-cases (ok a) = inr (a, refl)

pub set-same :
    {A : Type 0} (key : Text) (value : A) (map : Text → A) → set key value map key ≡ value
set-same key value map = let same = (==_iff key key).1 refl in rw same refl

pub data Call : Type 0 where
  asks : (key : Text) (now : ℕ) → Call
  defers : (key : Text) (next_eligible_at now : ℕ) → Call

abbrev pub key_of : Call → Text
key_of (Call.asks key now) = key
key_of (Call.defers key next_eligible_at now) = key

-- Tokens that an admission costs.
unfoldable pub cost : QuotaAdmission → ℕ
cost QuotaAdmission.allowed = 1
cost (QuotaAdmission.rate_limit at) = 0

module _ (numbers : Numbers) where
  abbrev Limiter : Type 0
  Limiter = ProviderQuotaLimiter numbers.Number

  unfoldable pub asked : Limiter → Result QuotaError (QuotaAdmission × Limiter) → ℕ × Limiter
  unfolding cost
  asked l (err thrown) = (0, l)
  asked l (ok (admission, next)) = (cost admission, next)

  unfoldable pub deferred : Limiter → Result QuotaError Limiter → ℕ × Limiter
  deferred l (err thrown) = (0, l)
  deferred l (ok next) = (0, next)

  -- How many requests the call admits, one or none, and what it leaves.
  unfoldable pub perform : Call → Limiter → ℕ × Limiter
  unfolding asked deferred
  perform (Call.asks key now) l = asked l (try_acquire_key numbers key now l)
  perform (Call.defers key next_eligible_at now) l =
      deferred l (defer_key numbers key next_eligible_at now l)

  unfoldable pub perform_all : List Call → Limiter → Limiter
  unfolding perform
  perform_all [] l = l
  perform_all (call ∷ calls) l = perform_all calls (perform call l).1

  -- How many requests at the key the calls admit.
  unfoldable pub admitted : Text → List Call → Limiter → ℕ
  unfolding perform
  admitted key [] l = 0
  admitted key (call ∷ calls) l =
      (if key == key_of call then (perform call l).0 else 0) + admitted key calls (perform call l).1
