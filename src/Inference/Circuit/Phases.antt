-- ===== src/Inference/Circuit/Phases.antt =====
-- What the circuit breaker of cli/src/inference/provider-resilience.ts promises, as an abstract machine
-- that knows nothing of leases and generations.
use ouroboros_runtime.Base.{
  ℕ, suc, ◌+◌, ◌<◌, ◌≤◌, ◌≡◌, ◌⊎◌, true, false, Option, none, some, List, [], ◌∷◌, is_some, max,
  All,
}
use ouroboros_runtime.Inference.Circuit.{
  CircuitBreaker, CircuitState, CircuitBreakerSnapshot, CircuitPermit, held_by, is_cooling, or_zero,
  state_is,
}
use ouroboros_runtime.Inference.Circuit.Calls.{Call, perform}

-- The circuit lets all calls through and counts failures in a row, or refuses them until a moment, or
-- tries the provider by one probe at a time, which a caller may hold.
pub data Phase : Type 0 where
  serving : (failures : ℕ) → Phase
  cooling : (next_attempt_at : Option ℕ) → Phase
  probing : (owner : Option ℕ) → Phase

abbrev pub phase : CircuitBreaker → Phase
phase c = elim c.state [
  | CircuitState.closed ↦ Phase.serving c.consecutive_failures
  | CircuitState.tripped ↦ Phase.cooling c.next_attempt_at
  | CircuitState.half_open ↦ Phase.probing c.active_probe
]

-- A restored circuit that was half open cools down again.
abbrev pub restored : (cooldown now : ℕ) → CircuitBreakerSnapshot → Phase
restored cooldown now s = elim s.state [
  | CircuitState.closed ↦ Phase.serving s.consecutive_failures
  | CircuitState.tripped ↦ Phase.cooling s.next_attempt_at
  | CircuitState.half_open ↦ Phase.cooling (some (max (or_zero s.next_attempt_at) (now + cooldown)))
]

-- Where a call may take the machine.
module _ (limit cooldown : ℕ) where
  abbrev pub Moves : Call → Phase → Phase → Type 0
  Moves (Call.requests now) (Phase.serving n) q = q ≡ Phase.serving n
  Moves (Call.requests now) (Phase.cooling u) q =
      ((is_cooling now u ≡ true) × (q ≡ Phase.cooling u))
      ⊎ ((is_cooling now u ≡ false) × ((k : ℕ) × (q ≡ Phase.probing (some k))))
  Moves (Call.requests now) (Phase.probing none) q = (k : ℕ) × (q ≡ Phase.probing (some k))
  Moves (Call.requests now) (Phase.probing (some k)) q = q ≡ Phase.probing (some k)
  Moves (Call.succeeds permit) (Phase.serving n) q = (q ≡ Phase.serving n) ⊎ (q ≡ Phase.serving 0)
  Moves (Call.succeeds permit) (Phase.cooling u) q = q ≡ Phase.cooling u
  Moves (Call.succeeds permit) (Phase.probing owner) q =
      (q ≡ Phase.probing owner) ⊎ ((owner ≡ some permit.identity) × (q ≡ Phase.serving 0))
  Moves (Call.fails now permit counted) (Phase.serving n) q =
      (q ≡ Phase.serving n)
      ⊎ ((counted ≡ true)
          × (((suc n < limit) × (q ≡ Phase.serving (suc n)))
              ⊎ ((limit ≤ suc n) × (q ≡ Phase.cooling (some (now + cooldown))))))
  Moves (Call.fails now permit counted) (Phase.cooling u) q = q ≡ Phase.cooling u
  Moves (Call.fails now permit counted) (Phase.probing owner) q =
      (q ≡ Phase.probing owner)
      ⊎ ((owner ≡ some permit.identity)
          × (((counted ≡ true) × (q ≡ Phase.cooling (some (now + cooldown))))
              ⊎ ((counted ≡ false) × (q ≡ Phase.serving 0))))
  Moves (Call.cancels now permit) (Phase.probing owner) q =
      (q ≡ Phase.probing owner)
      ⊎ ((owner ≡ some permit.identity) × (q ≡ Phase.cooling (some (now + cooldown))))
  Moves (Call.cancels now permit) p q = q ≡ p
  Moves (Call.gives_back permit) (Phase.probing owner) q =
      (q ≡ Phase.probing owner) ⊎ ((owner ≡ some permit.identity) × (q ≡ Phase.probing none))
  Moves (Call.gives_back permit) p q = q ≡ p
  Moves (Call.restores now s) p q = q ≡ restored cooldown now s
  Moves (Call.waits waiter) p q = q ≡ p

pub record IsSound (c : CircuitBreaker) : Type 0 where
  pub in_flight : c.probe_in_flight ≡ is_some c.active_probe
  pub modes : All (λ l. state_is l.mode CircuitState.tripped ≡ false) c.leases

-- A permit shows the state that it was made in.
abbrev pub IsGenuine : CircuitBreaker → CircuitPermit → Type 0
IsGenuine c permit = All (λ l. held_by permit.identity l ≡ true → l.mode ≡ permit.state) c.leases

abbrev pub GivesGenuine : CircuitBreaker → Call → Type 0
GivesGenuine c (Call.requests now) = Unit
GivesGenuine c (Call.succeeds permit) = IsGenuine c permit
GivesGenuine c (Call.fails now permit counted) = IsGenuine c permit
GivesGenuine c (Call.cancels now permit) = IsGenuine c permit
GivesGenuine c (Call.gives_back permit) = IsGenuine c permit
GivesGenuine c (Call.restores now s) = Unit
GivesGenuine c (Call.waits waiter) = Unit

-- Sequences of calls, on the breaker and on the machine.
abbrev pub AllGenuine : CircuitBreaker → List Call → Type 0
AllGenuine c [] = Unit
AllGenuine c (call ∷ calls) = GivesGenuine c call × AllGenuine (perform call c) calls

abbrev pub Runs : (limit cooldown : ℕ) → List Call → Phase → Phase → Type 0
Runs limit cooldown [] p q = q ≡ p
Runs limit cooldown (call ∷ calls) p q =
    (r : Phase) × Moves limit cooldown call p r × Runs limit cooldown calls r q
