-- ===== src/Mission/Engine/Steps/Numbers.antt =====
-- The numbers of the attempts in a row of cli/src/mission/mission-engine.ts.
use ouroboros_runtime.Base.{
  ℕ, suc, ◌+◌, ◌≡◌, ap, Option, some, List, [], ◌∷◌, ◌++◌, map, map_last, last?, length, arith,
}
use ouroboros_runtime.Base.Text.{Text}
use ouroboros_runtime.Mission.Contracts.{
  CapabilityInvocationAttempt, InvocationStatus, DeliveryState,
}
use ouroboros_runtime.Mission.Engine.Attempts.{updated_attempt}
use ouroboros_runtime.Mission.Engine.Delivery.{handed_off_attempt}
use ouroboros_runtime.Mission.Engine.Cancel.{cancelled_attempt}
use ouroboros_runtime.Mission.Engine.Steps.{IsNumbered}

module _ (f : CapabilityInvocationAttempt → CapabilityInvocationAttempt)
    (keeps : (a : CapabilityInvocationAttempt) → (f a).attempt ≡ a.attempt) where
  pub map_last-IsNumbered :
      (n : ℕ) (attempts : List CapabilityInvocationAttempt)
      → IsNumbered n attempts
      → IsNumbered n (map_last f attempts)
  unfolding IsNumbered
  map_last-IsNumbered n [] h = tt
  map_last-IsNumbered n (a ∷ []) h = (rw (keeps a) h.0, tt)
  map_last-IsNumbered n (a ∷ b ∷ rest) h = (h.0, map_last-IsNumbered (suc n) (b ∷ rest) h.1)

  pub map-IsNumbered :
      (n : ℕ) (attempts : List CapabilityInvocationAttempt)
      → IsNumbered n attempts
      → IsNumbered n (map f attempts)
  unfolding IsNumbered
  map-IsNumbered n [] h = tt
  map-IsNumbered n (a ∷ rest) h = (rw (keeps a) h.0, map-IsNumbered (suc n) rest h.1)

pub append-IsNumbered :
    (n : ℕ) (attempts : List CapabilityInvocationAttempt) (a : CapabilityInvocationAttempt)
    → IsNumbered n attempts
    → a.attempt ≡ n + length attempts
    → IsNumbered n (attempts ++ a ∷ [])
unfolding IsNumbered
append-IsNumbered n [] a h e = (omega arith, tt)
append-IsNumbered n (b ∷ rest) a h e = (h.0, append-IsNumbered (suc n) rest a h.1 (omega arith))

pub last?-IsNumbered :
    (n : ℕ) (attempts : List CapabilityInvocationAttempt) {a : CapabilityInvocationAttempt}
    → IsNumbered n attempts
    → last? attempts ≡ some a
    → suc (a.attempt) ≡ n + length attempts
unfolding IsNumbered
last?-IsNumbered n [] h e = cc
last?-IsNumbered n (b ∷ []) {a = a} h e =
    let same : b ≡ a = cc in
    let number : b.attempt ≡ a.attempt = ap (λ x. x.attempt) same in let first = h.0 in omega arith
last?-IsNumbered n (b ∷ c ∷ rest) h e =
    let ih = last?-IsNumbered (suc n) (c ∷ rest) h.1 e in omega arith

pub updated_attempt-attempt :
    (status : InvocationStatus) (at : Option ℕ) (error : Text) (a : CapabilityInvocationAttempt)
    → (updated_attempt status at error a).attempt ≡ a.attempt
unfolding updated_attempt
updated_attempt-attempt status at error a = ground arith

pub handed_off_attempt-attempt :
    (delivery : DeliveryState) (id : Option Text) (a : CapabilityInvocationAttempt)
    → (handed_off_attempt delivery id a).attempt ≡ a.attempt
unfolding handed_off_attempt
handed_off_attempt-attempt delivery id a = ground arith

pub cancelled_attempt-attempt :
    (now : ℕ) (reason : Text) (a : CapabilityInvocationAttempt)
    → (cancelled_attempt now reason a).attempt ≡ a.attempt
unfolding cancelled_attempt
cancelled_attempt-attempt now reason a = ground arith
