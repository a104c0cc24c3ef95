-- ===== src/Inference/Circuit/Once.antt =====
-- The permits of the circuit breaker in cli/src/inference/provider-resilience.ts: each counts once.
use ouroboros_runtime.Base.{
  ℕ, ◌<◌, ◌≡◌, refl, inl, inr, false, not, none, List, [], ◌∷◌, keep, find?, find?-eq-none, All,
  Bool-cases, arith,
}
use ouroboros_runtime.Base.Sort.Keep.{All-keep}
use ouroboros_runtime.Inference.Circuit.{
  CircuitBreaker, CircuitPermit, Lease, held_by, consume_permit, record_success, record_failure,
  cancel_probe, release_probe,
}
use ouroboros_runtime.Inference.Circuit.Calls.{
  Call, perform, perform_all, Consumed, consume_permit-Consumed,
}
use ouroboros_runtime.Inference.Circuit.Leases.{Leased, perform-Leased}

-- A permit that was made and has no lease any more.
record IsSpent (key : ℕ) (c : CircuitBreaker) : Type 0 where
  issued : key < c.permits
  gone : All (λ l. held_by key l ≡ false) c.leases

perform-IsSpent :
    (key : ℕ) (call : Call) (c : CircuitBreaker) → IsSpent key c → IsSpent key (perform call c)
perform-IsSpent key call c s = elim (perform-Leased call c) [
  | Leased.kept p l ↦ record { issued = omega (arith, p, s.issued); gone = rw l s.gone }
  | Leased.dropped q p l ↦ record {
    issued = omega (arith, p, s.issued);
    gone = rw l (All-keep q _ c.leases s.gone);
  }
  | Leased.refused p l ↦ record { issued = omega (arith, p, s.issued); gone = rw l s.gone }
  | Leased.made lease p a _ l ↦ record {
    issued = omega (arith, p, s.issued);
    gone = rw l (ground (arith, a, s.issued), s.gone);
  }
]

perform_all-IsSpent :
    (key : ℕ) (calls : List Call) (c : CircuitBreaker)
    → IsSpent key c
    → IsSpent key (perform_all calls c)
unfolding perform_all
perform_all-IsSpent key [] c s = s
perform_all-IsSpent key (call ∷ calls) c s =
    perform_all-IsSpent key calls (perform call c) (perform-IsSpent key call c s)

-- The call hands back the permit `key`, with whatever outcome.
abbrev pub HandsBack : ℕ → Call → Type 0
HandsBack key (Call.requests now) = ⊥
HandsBack key (Call.succeeds permit) = permit.identity ≡ key
HandsBack key (Call.fails now permit counted) = permit.identity ≡ key
HandsBack key (Call.cancels now permit) = permit.identity ≡ key
HandsBack key (Call.gives_back permit) = permit.identity ≡ key
HandsBack key (Call.restores now s) = ⊥
HandsBack key (Call.waits waiter) = ⊥

find?-gone :
    (key : ℕ) (leases : List Lease)
    → All (λ l. held_by key l ≡ false) leases
    → find? (held_by key) leases ≡ none
find?-gone key [] h = refl
find?-gone key (l ∷ leases) h = ground (arith, find?-gone key leases h.1)

gone-keep :
    (key : ℕ) (leases : List Lease)
    → All (λ l. held_by key l ≡ false) (keep (λ l. not (held_by key l)) leases)
gone-keep key [] = tt
gone-keep key (l ∷ leases) = elim (Bool-cases (held_by key l)) [
  | inl t ↦ rw t (gone-keep key leases)
  | inr f ↦ rw f (f, gone-keep key leases)
]

consume_permit-IsSpent :
    (permit : CircuitPermit) (c : CircuitBreaker)
    → permit.identity < c.permits
    → IsSpent permit.identity (consume_permit permit c).1
consume_permit-IsSpent permit c issued = elim (consume_permit-Consumed permit c) [
  | Consumed.unknown found e ↦
      rw e
        (record { issued = issued; gone = find?-eq-none (held_by permit.identity) c.leases found })
  | Consumed.known lease found e ↦
      rw e (record { issued = issued; gone = gone-keep permit.identity c.leases })
]

-- The rest of a completion touches neither the leases nor the count of permits.
IsSpent-by :
    {key : ℕ} (permit : CircuitPermit) (c next : CircuitBreaker)
    → permit.identity ≡ key
    → key < c.permits
    → next.permits ≡ (consume_permit permit c).1.permits
    → next.leases ≡ (consume_permit permit c).1.leases
    → IsSpent key next
IsSpent-by {key} permit c next h i p l =
    let s = consume_permit-IsSpent permit c (rw h i) in
    record { issued = rw (p, ← h) s.issued; gone = rw (l, ← h) s.gone }

consume_permit-spent :
    (permit : CircuitPermit) (c : CircuitBreaker)
    → IsSpent permit.identity c
    → consume_permit permit c ≡ (false, c)
unfolding consume_permit
consume_permit-spent permit c s =
    rw (consume_permit, find?-gone permit.identity c.leases s.gone) refl

perform-spent :
    (key : ℕ) (call : Call) (c : CircuitBreaker)
    → HandsBack key call
    → IsSpent key c
    → perform call c ≡ c
unfolding perform record_success record_failure cancel_probe release_probe
perform-spent key (Call.requests now) c h s = elim h [ ]
perform-spent key (Call.succeeds permit) c h s =
    rw (perform, record_success, consume_permit-spent permit c (rw h s)) refl
perform-spent key (Call.fails now permit counted) c h s =
    rw (perform, record_failure, consume_permit-spent permit c (rw h s)) refl
perform-spent key (Call.cancels now permit) c h s =
    rw (perform, cancel_probe, consume_permit-spent permit c (rw h s)) refl
perform-spent key (Call.gives_back permit) c h s =
    rw (perform, release_probe, consume_permit-spent permit c (rw h s)) refl
perform-spent key (Call.restores now snapshot) c h s = elim h [ ]
perform-spent key (Call.waits waiter) c h s = elim h [ ]

perform-HandsBack :
    (key : ℕ) (call : Call) (c : CircuitBreaker)
    → HandsBack key call
    → key < c.permits
    → IsSpent key (perform call c)
unfolding perform record_success record_failure cancel_probe release_probe
perform-HandsBack key (Call.requests now) c h i = elim h [ ]
perform-HandsBack key (Call.succeeds permit) c h i =
    IsSpent-by permit c (perform (Call.succeeds permit) c) h i (ground arith) (ground arith)
perform-HandsBack key (Call.fails now permit counted) c h i =
    IsSpent-by permit c (perform (Call.fails now permit counted) c) h i (ground arith)
      (ground arith)
perform-HandsBack key (Call.cancels now permit) c h i =
    IsSpent-by permit c (perform (Call.cancels now permit) c) h i (ground arith) (ground arith)
perform-HandsBack key (Call.gives_back permit) c h i =
    IsSpent-by permit c (perform (Call.gives_back permit) c) h i (ground arith) (ground arith)
perform-HandsBack key (Call.restores now snapshot) c h i = elim h [ ]
perform-HandsBack key (Call.waits waiter) c h i = elim h [ ]

-- A permit that was handed back once, with whatever outcome, does nothing when it is handed back again,
-- whatever calls came in between.
pub counts_once :
    (key : ℕ) (first again : Call) (calls : List Call) (c : CircuitBreaker)
    → HandsBack key first
    → HandsBack key again
    → key < c.permits
    → let d = perform_all calls (perform first c) in perform again d ≡ d
counts_once key first again calls c h k issued =
    perform-spent key again (perform_all calls (perform first c)) k
      (perform_all-IsSpent key calls (perform first c) (perform-HandsBack key first c h issued))
