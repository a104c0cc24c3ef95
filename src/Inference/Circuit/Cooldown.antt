-- ===== src/Inference/Circuit/Cooldown.antt =====
-- The cooldown of the circuit breaker in cli/src/inference/provider-resilience.ts.
use ouroboros_runtime.Base.{
  ℕ, ◌<◌, ◌≡◌, refl, false, not, some, List, [], ◌∷◌, keep, All, All-In, find?-eq-some, arith,
}
use ouroboros_runtime.Inference.Circuit.{
  CircuitBreaker, CircuitState, CircuitPermit, Lease, before_request, held_by, is_honoured,
  state_is, consume_permit, record_success, record_failure, cancel_probe, release_probe,
}
use ouroboros_runtime.Inference.Circuit.Calls.{
  Call, perform, perform_all, Consumed, consume_permit-Consumed,
}
use ouroboros_runtime.Inference.Circuit.Phases.{IsSound}
use ouroboros_runtime.Inference.Circuit.Refine.{perform-IsSound}

-- The call is no restore, and a request comes before the moment.
abbrev pub IsEarly : (until : ℕ) → Call → Type 0
IsEarly until (Call.requests now) = now < until
IsEarly until (Call.restores now s) = ⊥
IsEarly until (Call.succeeds permit) = Unit
IsEarly until (Call.fails now permit counted) = Unit
IsEarly until (Call.cancels now permit) = Unit
IsEarly until (Call.gives_back permit) = Unit
IsEarly until (Call.waits waiter) = Unit

record IsCooling (until : ℕ) (c : CircuitBreaker) : Type 0 where
  tripped : c.state ≡ CircuitState.tripped
  waits : c.next_attempt_at ≡ some until

not-honoured :
    (c : CircuitBreaker) (lease : Lease)
    → c.state ≡ CircuitState.tripped
    → state_is lease.mode CircuitState.tripped ≡ false
    → is_honoured c lease ≡ false
not-honoured c lease t m = ground arith

consume_permit-IsCooling :
    (until : ℕ) (permit : CircuitPermit) (c : CircuitBreaker)
    → IsSound c
    → IsCooling until c
    → (d : CircuitBreaker) × (consume_permit permit c ≡ (false, d)) × IsCooling until d
consume_permit-IsCooling until permit c s p = elim (consume_permit-Consumed permit c) [
  | Consumed.unknown _ e ↦ (c, e, p)
  | Consumed.known lease found e ↦
      let listed = (find?-eq-some (held_by permit.identity) c.leases found).1 in
      let mode = All-In _ c.leases lease s.modes listed in
      (
        record c { leases = keep (λ l. not (held_by permit.identity l)) c.leases },
        rw (e, not-honoured c lease p.tripped mode) refl,
        record { tripped = p.tripped; waits = p.waits },
      )
]

perform-IsCooling :
    (until : ℕ) (call : Call) (c : CircuitBreaker)
    → IsEarly until call
    → IsSound c
    → IsCooling until c
    → IsCooling until (perform call c)
unfolding perform before_request record_success record_failure cancel_probe release_probe
perform-IsCooling until (Call.requests now) c a s p = ground arith
perform-IsCooling until (Call.succeeds permit) c a s p =
    let (d, e, q) = consume_permit-IsCooling until permit c s p in rw (perform, record_success, e) q
perform-IsCooling until (Call.fails now permit counted) c a s p =
    let (d, e, q) = consume_permit-IsCooling until permit c s p in rw (perform, record_failure, e) q
perform-IsCooling until (Call.cancels now permit) c a s p =
    let (d, e, q) = consume_permit-IsCooling until permit c s p in rw (perform, cancel_probe, e) q
perform-IsCooling until (Call.gives_back permit) c a s p =
    let (d, e, q) = consume_permit-IsCooling until permit c s p in rw (perform, release_probe, e) q
perform-IsCooling until (Call.restores now snapshot) c a s p = elim a [ ]
perform-IsCooling until (Call.waits waiter) c a s p = record {
  tripped = p.tripped;
  waits = p.waits;
}

perform_all-IsCooling :
    (until : ℕ) (calls : List Call) (c : CircuitBreaker)
    → All (IsEarly until) calls
    → IsSound c
    → IsCooling until c
    → IsCooling until (perform_all calls c)
unfolding perform_all
perform_all-IsCooling until [] c a s p = p
perform_all-IsCooling until (call ∷ calls) c a s p =
    perform_all-IsCooling until calls (perform call c) a.1 (perform-IsSound call c s)
      (perform-IsCooling until call c a.0 s p)

refused :
    (until now : ℕ) (c : CircuitBreaker)
    → IsCooling until c
    → now < until
    → (before_request now c).0.allowed ≡ false
unfolding before_request
refused until now c p early = ground arith

-- A tripped circuit refuses every request before its next attempt, whatever permits are handed back in
-- the meantime and whatever their outcome; only a restore ends the cooldown sooner.
pub refused_until :
    (until : ℕ) (calls : List Call) (c : CircuitBreaker) (now : ℕ)
    → IsSound c
    → c.state ≡ CircuitState.tripped
    → c.next_attempt_at ≡ some until
    → All (IsEarly until) calls
    → now < until
    → (before_request now (perform_all calls c)).0.allowed ≡ false
refused_until until calls c now s t w a early =
    refused until now (perform_all calls c)
      (perform_all-IsCooling until calls c a s (record { tripped = t; waits = w })) early
