-- ===== src/Inference/Circuit/Leases.antt =====
-- How each call of the circuit breaker in cli/src/inference/provider-resilience.ts changes its leases.
use ouroboros_runtime.Base.{
  ℕ, suc, ◌≡◌, refl, ◌∙◌, ◌⊎◌, inl, inr, Bool, false, not, ◌∷◌, keep, Bool-cases, arith,
}
use ouroboros_runtime.Inference.Circuit.{
  CircuitBreaker, CircuitState, CircuitPermit, Lease, before_request, held_by, consume_permit,
  record_success, record_failure, cancel_probe, release_probe, restore, state_is, is_cooling,
}
use ouroboros_runtime.Inference.Circuit.Calls.{Call, perform, Consumed, consume_permit-Consumed}

-- How a call changes the leases and the count of permits.
pub data Leased (c d : CircuitBreaker) : Type 0 where
  kept : d.permits ≡ c.permits → d.leases ≡ c.leases → Leased c d
  dropped : (p : Lease → Bool) → d.permits ≡ c.permits → d.leases ≡ keep p c.leases → Leased c d
  refused : d.permits ≡ suc c.permits → d.leases ≡ c.leases → Leased c d
  made :
      (lease : Lease)
      → d.permits ≡ suc c.permits
      → lease.holder ≡ c.permits
      → state_is lease.mode CircuitState.tripped ≡ false
      → d.leases ≡ lease ∷ c.leases
      → Leased c d

pub CircuitState-cases :
    (s : CircuitState)
    → (s ≡ CircuitState.closed) ⊎ ((s ≡ CircuitState.half_open) ⊎ (s ≡ CircuitState.tripped))
CircuitState-cases CircuitState.closed = inl refl
CircuitState-cases CircuitState.half_open = inr (inl refl)
CircuitState-cases CircuitState.tripped = inr (inr refl)

before_request-Leased : (now : ℕ) (c : CircuitBreaker) → Leased c (before_request now c).1
unfolding before_request
before_request-Leased now c = elim (CircuitState-cases c.state) [
  | inl e ↦
      Leased.made
        (record { holder = c.permits; generation = c.generation; mode = CircuitState.closed })
        (ground arith) refl refl (ground arith)
  | inr (inl e) ↦ elim (Bool-cases c.probe_in_flight) [
    | inl t ↦ Leased.refused (ground arith) (ground arith)
    | inr f ↦
        Leased.made
          (record { holder = c.permits; generation = c.generation; mode = CircuitState.half_open })
          (ground arith) refl refl (ground arith)
  ]
  | inr (inr e) ↦ elim (Bool-cases (is_cooling now c.next_attempt_at)) [
    | inl t ↦ Leased.refused (ground arith) (ground arith)
    | inr f ↦
        Leased.made
          (record {
            holder = c.permits;
            generation = suc c.generation;
            mode = CircuitState.half_open;
          })
          (ground arith) refl refl (ground arith)
  ]
]

consume_permit-Leased :
    (permit : CircuitPermit) (c : CircuitBreaker) → Leased c (consume_permit permit c).1
consume_permit-Leased permit c = elim (consume_permit-Consumed permit c) [
  | Consumed.unknown _ e ↦ rw e (Leased.kept refl refl)
  | Consumed.known lease _ e ↦
      rw e (Leased.dropped (λ l. not (held_by permit.identity l)) refl refl)
]

same_leases :
    {c d : CircuitBreaker} (e : CircuitBreaker)
    → Leased c d
    → e.permits ≡ d.permits
    → e.leases ≡ d.leases
    → Leased c e
same_leases e (Leased.kept p l) h k = Leased.kept (h ∙ p) (k ∙ l)
same_leases e (Leased.dropped q p l) h k = Leased.dropped q (h ∙ p) (k ∙ l)
same_leases e (Leased.refused p l) h k = Leased.refused (h ∙ p) (k ∙ l)
same_leases e (Leased.made lease p a b l) h k = Leased.made lease (h ∙ p) a b (k ∙ l)

pub perform-Leased : (call : Call) (c : CircuitBreaker) → Leased c (perform call c)
unfolding perform record_success record_failure cancel_probe release_probe restore
perform-Leased (Call.requests now) c = before_request-Leased now c
perform-Leased (Call.succeeds permit) c =
    same_leases _ (consume_permit-Leased permit c) (ground arith) (ground arith)
perform-Leased (Call.fails now permit counted) c =
    same_leases _ (consume_permit-Leased permit c) (ground arith) (ground arith)
perform-Leased (Call.cancels now permit) c =
    same_leases _ (consume_permit-Leased permit c) (ground arith) (ground arith)
perform-Leased (Call.gives_back permit) c =
    same_leases _ (consume_permit-Leased permit c) (ground arith) (ground arith)
perform-Leased (Call.restores now s) c = Leased.kept (ground arith) (ground arith)
perform-Leased (Call.waits waiter) c = Leased.kept refl refl
