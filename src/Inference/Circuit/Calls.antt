-- ===== src/Inference/Circuit/Calls.antt =====
-- The circuit breaker of cli/src/inference/provider-resilience.ts in time: the state that any sequence
-- of its calls leaves.
use ouroboros_runtime.Base.{
  ℕ, ◌≡◌, refl, inl, inr, Bool, false, not, none, some, List, [], ◌∷◌, keep, find?, Option-cases,
}
use ouroboros_runtime.Inference.Circuit.{
  CircuitBreaker, CircuitBreakerSnapshot, CircuitPermit, Lease, before_request, held_by,
  is_honoured, consume_permit, record_success, record_failure, cancel_probe, release_probe, restore,
  wait_for_transition,
}

pub data Call : Type 0 where
  requests : (now : ℕ) → Call
  succeeds : CircuitPermit → Call
  fails : (now : ℕ) → CircuitPermit → (counted : Bool) → Call
  cancels : (now : ℕ) → CircuitPermit → Call
  gives_back : CircuitPermit → Call
  restores : (now : ℕ) → CircuitBreakerSnapshot → Call
  waits : (waiter : ℕ) → Call

unfoldable pub perform : Call → CircuitBreaker → CircuitBreaker
perform (Call.requests now) c = (before_request now c).1
perform (Call.succeeds permit) c = record_success permit c
perform (Call.fails now permit counted) c = record_failure now permit counted c
perform (Call.cancels now permit) c = cancel_probe now permit c
perform (Call.gives_back permit) c = release_probe permit c
perform (Call.restores now s) c = restore now s c
perform (Call.waits waiter) c = wait_for_transition waiter c

unfoldable pub perform_all : List Call → CircuitBreaker → CircuitBreaker
unfolding perform
perform_all [] c = c
perform_all (call ∷ calls) c = perform_all calls (perform call c)

-- What became of a permit that is handed back.
pub data Consumed (permit : CircuitPermit) (c : CircuitBreaker) : Type 0 where
  unknown :
      find? (held_by permit.identity) c.leases ≡ none
      → consume_permit permit c ≡ (false, c)
      → Consumed permit c
  known :
      (lease : Lease)
      → find? (held_by permit.identity) c.leases ≡ some lease
      → consume_permit permit c ≡ (
        is_honoured c lease,
        record c { leases = keep (λ l. not (held_by permit.identity l)) c.leases },
      )
      → Consumed permit c

pub consume_permit-Consumed : (permit : CircuitPermit) (c : CircuitBreaker) → Consumed permit c
unfolding consume_permit
consume_permit-Consumed permit c = elim (Option-cases (find? (held_by permit.identity) c.leases)) [
  | inl e ↦ Consumed.unknown e (rw (consume_permit, e) refl)
  | inr (lease, e) ↦ Consumed.known lease e (rw (consume_permit, e) refl)
]
