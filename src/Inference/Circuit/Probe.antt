-- ===== src/Inference/Circuit/Probe.antt =====
-- The single probe of a half-open circuit in cli/src/inference/provider-resilience.ts.
use ouroboros_runtime.Base.{
  ℕ, ◌≡◌, ◌≢◌, refl, sym, ◌∙◌, true, false, not, some, List, [], ◌∷◌, keep, find?-eq-some, All,
  nat_beq_iff, arith,
}
use ouroboros_runtime.Inference.Circuit.{
  CircuitBreaker, CircuitState, CircuitPermit, Lease, before_request, held_by, is_honoured,
  consume_permit, record_success, record_failure, cancel_probe, release_probe,
}
use ouroboros_runtime.Inference.Circuit.Calls.{
  Call, perform, perform_all, Consumed, consume_permit-Consumed,
}

-- A half-open circuit whose probe is the permit `owner`.
pub record IsProbing (owner : ℕ) (c : CircuitBreaker) : Type 0 where
  half_open : c.state ≡ CircuitState.half_open
  in_flight : c.probe_in_flight ≡ true
  owned : c.active_probe ≡ some owner

-- The call is no restore, and hands back no permit but others than `owner`.
abbrev pub LeavesAlone : ℕ → Call → Type 0
LeavesAlone owner (Call.requests now) = Unit
LeavesAlone owner (Call.succeeds permit) = permit.identity ≢ owner
LeavesAlone owner (Call.fails now permit counted) = permit.identity ≢ owner
LeavesAlone owner (Call.cancels now permit) = permit.identity ≢ owner
LeavesAlone owner (Call.gives_back permit) = permit.identity ≢ owner
LeavesAlone owner (Call.restores now s) = ⊥
LeavesAlone owner (Call.waits waiter) = Unit

not-honoured :
    (owner : ℕ) (c : CircuitBreaker) (lease : Lease)
    → IsProbing owner c
    → lease.holder ≢ owner
    → is_honoured c lease ≡ false
not-honoured owner c lease p other = ground arith

-- Another permit is not honoured, and the probe stays.
consume_permit-IsProbing :
    (owner : ℕ) (permit : CircuitPermit) (c : CircuitBreaker)
    → IsProbing owner c
    → permit.identity ≢ owner
    → (d : CircuitBreaker) × (consume_permit permit c ≡ (false, d)) × IsProbing owner d
consume_permit-IsProbing owner permit c p other = elim (consume_permit-Consumed permit c) [
  | Consumed.unknown _ e ↦ (c, e, p)
  | Consumed.known lease found e ↦
      let same =
        (nat_beq_iff lease.holder permit.identity).0
          (find?-eq-some (held_by permit.identity) c.leases found).0 in
      (
        record c { leases = keep (λ l. not (held_by permit.identity l)) c.leases },
        rw (e, not-honoured owner c lease p (λ own. other (sym same ∙ own))) refl,
        record { half_open = p.half_open; in_flight = p.in_flight; owned = p.owned },
      )
]

perform-IsProbing :
    (owner : ℕ) (call : Call) (c : CircuitBreaker)
    → LeavesAlone owner call
    → IsProbing owner c
    → IsProbing owner (perform call c)
unfolding perform before_request record_success record_failure cancel_probe release_probe
perform-IsProbing owner (Call.requests now) c a p = ground arith
perform-IsProbing owner (Call.succeeds permit) c a p =
    let (d, e, q) = consume_permit-IsProbing owner permit c p a in rw (perform, record_success, e) q
perform-IsProbing owner (Call.fails now permit counted) c a p =
    let (d, e, q) = consume_permit-IsProbing owner permit c p a in rw (perform, record_failure, e) q
perform-IsProbing owner (Call.cancels now permit) c a p =
    let (d, e, q) = consume_permit-IsProbing owner permit c p a in rw (perform, cancel_probe, e) q
perform-IsProbing owner (Call.gives_back permit) c a p =
    let (d, e, q) = consume_permit-IsProbing owner permit c p a in rw (perform, release_probe, e) q
perform-IsProbing owner (Call.restores now s) c a p = elim a [ ]
perform-IsProbing owner (Call.waits waiter) c a p = record {
  half_open = p.half_open;
  in_flight = p.in_flight;
  owned = p.owned;
}

perform_all-IsProbing :
    (owner : ℕ) (calls : List Call) (c : CircuitBreaker)
    → All (LeavesAlone owner) calls
    → IsProbing owner c
    → IsProbing owner (perform_all calls c)
unfolding perform_all
perform_all-IsProbing owner [] c a p = p
perform_all-IsProbing owner (call ∷ calls) c a p =
    perform_all-IsProbing owner calls (perform call c) a.1 (perform-IsProbing owner call c a.0 p)

-- A request that a circuit grants when it is not closed is such a probe.
before_request-IsProbing :
    (now : ℕ) (c : CircuitBreaker)
    → c.state ≢ CircuitState.closed
    → (before_request now c).0.allowed ≡ true
    → IsProbing (before_request now c).0.identity (before_request now c).1
unfolding before_request
before_request-IsProbing now c live h = ground arith

refused-IsProbing :
    (owner now : ℕ) (c : CircuitBreaker)
    → IsProbing owner c
    → (before_request now c).0.allowed ≡ false
unfolding before_request
refused-IsProbing owner now c p = ground arith

-- Once a circuit that is not closed has granted a request, every later request is refused, whatever
-- calls come in between and whatever other permits they hand back, until the granted permit itself is
-- handed back or a snapshot is restored.
pub single_probe :
    (c : CircuitBreaker) (granted_at : ℕ) (calls : List Call) (now : ℕ)
    → c.state ≢ CircuitState.closed
    → (before_request granted_at c).0.allowed ≡ true
    → All (LeavesAlone (before_request granted_at c).0.identity) calls
    → (before_request now (perform_all calls (before_request granted_at c).1)).0.allowed ≡ false
single_probe c granted_at calls now live granted alone =
    let owner = (before_request granted_at c).0.identity in
    let probing = before_request-IsProbing granted_at c live granted in
    refused-IsProbing owner now (perform_all calls (before_request granted_at c).1)
      (perform_all-IsProbing owner calls (before_request granted_at c).1 alone probing)
