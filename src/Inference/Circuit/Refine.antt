-- ===== src/Inference/Circuit/Refine.antt =====
-- The circuit breaker of cli/src/inference/provider-resilience.ts implements its abstract machine.
use ouroboros_runtime.Base.{
  ℕ, ◌≡◌, refl, subst, ◌⊎◌, inl, inr, Bool, true, false, none, some, List, [], ◌∷◌, is_some,
  find?-eq-some, All-In, Bool-cases, arith,
}
use ouroboros_runtime.Base.Sort.Keep.{All-keep}
use ouroboros_runtime.Inference.Circuit.{
  CircuitBreaker, CircuitState, CircuitBreakerSnapshot, CircuitPermit, Lease, before_request,
  held_by, is_honoured, is_cooling, consume_permit, record_success, record_failure, cancel_probe,
  release_probe, restore, state_is,
}
use ouroboros_runtime.Inference.Circuit.Calls.{
  Call, perform, perform_all, Consumed, consume_permit-Consumed,
}
use ouroboros_runtime.Inference.Circuit.Leases.{Leased, perform-Leased}
use ouroboros_runtime.Inference.Circuit.Phases.{
  Phase, phase, restored, Moves, IsSound, IsGenuine, GivesGenuine, Runs, AllGenuine,
}

-- What a completion sees of its permit.
abbrev Seen : CircuitBreaker → CircuitPermit → Bool × CircuitBreaker → Type 0
Seen c permit (honoured, next) =
    (phase next ≡ phase c)
    × (next.failure_threshold ≡ c.failure_threshold)
    × (next.cooldown_ms ≡ c.cooldown_ms)
    × (next.probe_in_flight ≡ c.probe_in_flight)
    × (next.consecutive_failures ≡ c.consecutive_failures)
    × ((honoured ≡ false)
        ⊎ ((honoured ≡ true)
            × (((c.state ≡ CircuitState.closed) × (permit.state ≡ CircuitState.closed))
                ⊎ ((c.state ≡ CircuitState.half_open)
                    × (permit.state ≡ CircuitState.half_open)
                    × (c.active_probe ≡ some permit.identity)))))

honoured-cases :
    (c : CircuitBreaker) (permit : CircuitPermit) (lease : Lease)
    → held_by permit.identity lease ≡ true
    → lease.mode ≡ permit.state
    → state_is lease.mode CircuitState.tripped ≡ false
    → (is_honoured c lease ≡ false)
      ⊎ ((is_honoured c lease ≡ true)
          × (((c.state ≡ CircuitState.closed) × (permit.state ≡ CircuitState.closed))
              ⊎ ((c.state ≡ CircuitState.half_open)
                  × (permit.state ≡ CircuitState.half_open)
                  × (c.active_probe ≡ some permit.identity))))
honoured-cases c permit lease holds genuine mode = ground arith

consume_permit-Seen :
    (permit : CircuitPermit) (c : CircuitBreaker)
    → IsSound c
    → IsGenuine c permit
    → Seen c permit (consume_permit permit c)
consume_permit-Seen permit c s g = elim (consume_permit-Consumed permit c) [
  | Consumed.unknown found e ↦ rw e (refl, refl, refl, refl, refl, inl refl)
  | Consumed.known lease found e ↦
      let (holds, listed) = find?-eq-some (held_by permit.identity) c.leases found in
      let genuine = All-In _ c.leases lease g listed holds in
      let mode = All-In _ c.leases lease s.modes listed in
      rw e (refl, refl, refl, refl, refl, honoured-cases c permit lease holds genuine mode)
]

module _ (permit : CircuitPermit) (c next : CircuitBreaker) (b : Bool)
    (e : consume_permit permit c ≡ (b, next)) (seen : Seen c permit (b, next)) where
  succeeds-Moves :
      (p : Phase)
      → phase c ≡ p
      → Moves c.failure_threshold c.cooldown_ms
          (Call.succeeds permit)
          p
          (phase (record_success permit c))
  unfolding record_success
  succeeds-Moves (Phase.serving n) h = rw (record_success, e) (ground arith)
  succeeds-Moves (Phase.cooling u) h = rw (record_success, e) (ground arith)
  succeeds-Moves (Phase.probing owner) h = rw (record_success, e) (ground arith)

  fails-Moves :
      (now : ℕ) (counted : Bool) (p : Phase)
      → phase c ≡ p
      → Moves c.failure_threshold c.cooldown_ms
          (Call.fails now permit counted)
          p
          (phase (record_failure now permit counted c))
  unfolding record_failure
  fails-Moves now counted (Phase.serving n) h = rw (record_failure, e) (ground arith)
  fails-Moves now counted (Phase.cooling u) h = rw (record_failure, e) (ground arith)
  fails-Moves now counted (Phase.probing owner) h = rw (record_failure, e) (ground arith)

  cancels-Moves :
      (now : ℕ) (p : Phase)
      → phase c ≡ p
      → Moves c.failure_threshold c.cooldown_ms
          (Call.cancels now permit)
          p
          (phase (cancel_probe now permit c))
  unfolding cancel_probe
  cancels-Moves now (Phase.serving n) h = rw (cancel_probe, e) (ground arith)
  cancels-Moves now (Phase.cooling u) h = rw (cancel_probe, e) (ground arith)
  cancels-Moves now (Phase.probing owner) h = rw (cancel_probe, e) (ground arith)

  gives_back-Moves :
      (p : Phase)
      → phase c ≡ p
      → Moves c.failure_threshold c.cooldown_ms
          (Call.gives_back permit)
          p
          (phase (release_probe permit c))
  unfolding release_probe
  gives_back-Moves (Phase.serving n) h = rw (release_probe, e) (ground arith)
  gives_back-Moves (Phase.cooling u) h = rw (release_probe, e) (ground arith)
  gives_back-Moves (Phase.probing owner) h = rw (release_probe, e) (ground arith)

requests-Moves :
    (now : ℕ) (c : CircuitBreaker) (p : Phase)
    → IsSound c
    → phase c ≡ p
    → Moves c.failure_threshold c.cooldown_ms (Call.requests now) p (phase (before_request now c).1)
unfolding before_request
requests-Moves now c (Phase.serving n) s h = ground arith
requests-Moves now c (Phase.cooling u) s h = elim (Bool-cases (is_cooling now u)) [
  | inl t ↦ inl (t, ground arith)
  | inr f ↦ inr (f, (c.permits, ground arith))
]
requests-Moves now c (Phase.probing none) s h = (c.permits, ground arith)
requests-Moves now c (Phase.probing (some k)) s h = ground arith

restores-Moves :
    (now : ℕ) (s : CircuitBreakerSnapshot) (c : CircuitBreaker)
    → phase (restore now s c) ≡ restored c.cooldown_ms now s
unfolding restore
restores-Moves now s c = ground arith

perform-Moves :
    (call : Call) (c : CircuitBreaker)
    → IsSound c
    → GivesGenuine c call
    → Moves c.failure_threshold c.cooldown_ms call (phase c) (phase (perform call c))
unfolding perform
perform-Moves (Call.requests now) c s g = requests-Moves now c (phase c) s refl
perform-Moves (Call.succeeds permit) c s g =
    succeeds-Moves permit c _ _ refl (consume_permit-Seen permit c s g) (phase c) refl
perform-Moves (Call.fails now permit counted) c s g =
    fails-Moves permit c _ _ refl (consume_permit-Seen permit c s g) now counted (phase c) refl
perform-Moves (Call.cancels now permit) c s g =
    cancels-Moves permit c _ _ refl (consume_permit-Seen permit c s g) now (phase c) refl
perform-Moves (Call.gives_back permit) c s g =
    gives_back-Moves permit c _ _ refl (consume_permit-Seen permit c s g) (phase c) refl
perform-Moves (Call.restores now snapshot) c s g = restores-Moves now snapshot c
perform-Moves (Call.waits waiter) c s g = refl

in_flight-consume_permit :
    (permit : CircuitPermit) (c : CircuitBreaker)
    → ((consume_permit permit c).1.probe_in_flight ≡ c.probe_in_flight)
      × ((consume_permit permit c).1.active_probe ≡ c.active_probe)
      × ((consume_permit permit c).1.failure_threshold ≡ c.failure_threshold)
      × ((consume_permit permit c).1.cooldown_ms ≡ c.cooldown_ms)
unfolding consume_permit
in_flight-consume_permit permit c = ground arith

perform-in_flight :
    (call : Call) (c : CircuitBreaker)
    → c.probe_in_flight ≡ is_some c.active_probe
    → let d = perform call c in
      (d.probe_in_flight ≡ is_some d.active_probe)
      × (d.failure_threshold ≡ c.failure_threshold)
      × (d.cooldown_ms ≡ c.cooldown_ms)
unfolding perform before_request record_success record_failure cancel_probe release_probe restore
perform-in_flight (Call.requests now) c h = ground arith
perform-in_flight (Call.succeeds permit) c h = ground (arith, in_flight-consume_permit permit c)
perform-in_flight (Call.fails now permit counted) c h =
    ground (arith, in_flight-consume_permit permit c)
perform-in_flight (Call.cancels now permit) c h = ground (arith, in_flight-consume_permit permit c)
perform-in_flight (Call.gives_back permit) c h = ground (arith, in_flight-consume_permit permit c)
perform-in_flight (Call.restores now snapshot) c h = ground arith
perform-in_flight (Call.waits waiter) c h = (h, refl, refl)

pub perform-IsSound : (call : Call) (c : CircuitBreaker) → IsSound c → IsSound (perform call c)
perform-IsSound call c s = record {
  in_flight = (perform-in_flight call c s.in_flight).0;
  modes = elim (perform-Leased call c) [
    | Leased.kept _ l ↦ rw l s.modes
    | Leased.dropped q _ l ↦ rw l (All-keep q _ c.leases s.modes)
    | Leased.refused _ l ↦ rw l s.modes
    | Leased.made lease _ _ mode l ↦ rw l (mode, s.modes)
  ];
}

-- Any calls that hand back permits as they were made take the breaker where the abstract machine may go.
pub perform_all-Runs :
    (calls : List Call) (c : CircuitBreaker)
    → IsSound c
    → AllGenuine c calls
    → Runs c.failure_threshold c.cooldown_ms calls (phase c) (phase (perform_all calls c))
unfolding perform_all
perform_all-Runs [] c s g = refl
perform_all-Runs (call ∷ calls) c s g =
    let d = perform call c in
    let (_, limit, cooldown) = perform-in_flight call c s.in_flight in
    (
      phase d,
      perform-Moves call c s g.0,
      subst (λ l. Runs l c.cooldown_ms calls (phase d) (phase (perform_all calls d))) limit
          (subst (λ m. Runs d.failure_threshold m calls (phase d) (phase (perform_all calls d)))
            cooldown (perform_all-Runs calls d (perform-IsSound call c s) g.1)),
    )
