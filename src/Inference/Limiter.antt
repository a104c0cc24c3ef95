-- ===== src/Inference/Limiter.antt =====
-- ProviderConcurrencyLimiter and quotaKey of cli/src/inference/provider-resilience.ts. A key that a map
-- lacks counts none in flight and has nobody waiting; a waiter is a number in place of its closures, and
-- gives up when its signal is aborted or its budget expires.
pub mod Laws
use ouroboros_runtime.Base.{
  ℕ, zero, suc, ◌+◌, ◌-◌, Bool, true, false, not, Option, none, some, List, [], ◌∷◌, ◌++◌, all, leb,
  ltb, nat_beq, if◌then◌else◌, ◌==◌, Result, ok, err, ◌>>=◌, ◌>>◌, reject_if,
}
use ouroboros_runtime.Base.Text.{Text, text_eq, is_white}

pub data LimiterError : Type 0 where
  empty_provider_id : LimiterError
  empty_credential_scope : LimiterError
  max_concurrency_not_positive : LimiterError

-- `!id || !id.trim()` throws.
unfoldable pub quota_key : (provider_id credential_scope : Text) → Result LimiterError Text
unfolding is_white
quota_key provider_id credential_scope =
    reject_if (all is_white provider_id) LimiterError.empty_provider_id
    >> reject_if (all is_white credential_scope) LimiterError.empty_credential_scope
    >> ok (provider_id ++ 0 ∷ credential_scope)

pub record ProviderConcurrencyLimiter : Type 0 where
  pub max_concurrency : ℕ
  pub in_flight : Text → ℕ
  pub waiters : Text → List ℕ

unfoldable pub create : (max_concurrency : ℕ) → Result LimiterError ProviderConcurrencyLimiter
create max_concurrency =
    reject_if (ltb max_concurrency 1) LimiterError.max_concurrency_not_positive
    >> ok (record { max_concurrency = max_concurrency; in_flight = λ k. 0; waiters = λ k. [] })

-- `map.set(key, value)`
abbrev pub set : {A : Type 0} → Text → A → (Text → A) → Text → A
set key value map k = if k == key then value else map k

unfoldable pub try_acquire_key :
    (key : Text) → ProviderConcurrencyLimiter → Bool × ProviderConcurrencyLimiter
try_acquire_key key l =
    if leb l.max_concurrency (l.in_flight key)
    then (false, l)
    else (true, record l { in_flight = set key (l.in_flight key + 1) l.in_flight })

-- `acquire` up to its await, without a budget: whether the caller has its slot at once. Where the signal
-- is aborted already, the caller gives up right after it joined.
unfoldable pub acquire_key :
    (key : Text) (waiter : ℕ) → ProviderConcurrencyLimiter → Bool × ProviderConcurrencyLimiter
unfolding try_acquire_key
acquire_key key waiter l =
    let (acquired, next) = try_acquire_key key l in
    if acquired
    then (true, next)
    else (false, record l { waiters = set key (l.waiters key ++ waiter ∷ []) l.waiters })

unfoldable pub without : (waiter : ℕ) → List ℕ → List ℕ
without waiter [] = []
without waiter (w ∷ ws) = let rest = w ∷ without waiter ws in if nat_beq w waiter then ws else rest

-- `removeWaiter`, when a waiter gives up
unfoldable pub remove_waiter :
    (key : Text) (waiter : ℕ) → ProviderConcurrencyLimiter → ProviderConcurrencyLimiter
unfolding without
remove_waiter key waiter l = record l {
  waiters = set key (without waiter (l.waiters key)) l.waiters;
}

-- Who gets the slot, and what the call leaves.
unfoldable pub hand_over :
    (key : Text) → List ℕ → ProviderConcurrencyLimiter → Option ℕ × ProviderConcurrencyLimiter
hand_over key [] l = (none, record l { in_flight = set key (l.in_flight key - 1) l.in_flight })
hand_over key (next ∷ rest) l = (some next, record l { waiters = set key rest l.waiters })

unfoldable pub release_key :
    (key : Text) → ProviderConcurrencyLimiter → Option ℕ × ProviderConcurrencyLimiter
unfolding hand_over
release_key key l =
    let released = hand_over key (l.waiters key) l in
    if leb (l.in_flight key) 0 then (none, l) else released

-- The methods take the identity of a provider and a scope of credentials.
unfoldable pub acquire :
    (provider_id credential_scope : Text) (waiter : ℕ)
    → ProviderConcurrencyLimiter
    → Result LimiterError (Bool × ProviderConcurrencyLimiter)
unfolding quota_key acquire_key
acquire provider_id credential_scope waiter l =
    quota_key provider_id credential_scope >>= λ key. ok (acquire_key key waiter l)

unfoldable pub release :
    (provider_id credential_scope : Text)
    → ProviderConcurrencyLimiter
    → Result LimiterError (Option ℕ × ProviderConcurrencyLimiter)
unfolding quota_key release_key
release provider_id credential_scope l =
    quota_key provider_id credential_scope >>= λ key. ok (release_key key l)
