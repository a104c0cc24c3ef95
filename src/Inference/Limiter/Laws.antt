-- ===== src/Inference/Limiter/Laws.antt =====
-- The bound and the isolation of the concurrency limiter of cli/src/inference/provider-resilience.ts.
use ouroboros_runtime.Base.{
  ℕ, ◌≤◌, ◌<◌, ◌≡◌, ◌≢◌, refl, sym, subst, ap, ◌∙◌, ◌⊎◌, inl, inr, false, List, [], ◌∷◌, ◌++◌, All,
  ◌==◌, ==_iff, ok, Bool-cases, arith,
}
use ouroboros_runtime.Base.Text.{Text, text_eq}
use ouroboros_runtime.Inference.Limiter.{
  ProviderConcurrencyLimiter, create, quota_key, try_acquire_key, acquire_key, without,
  remove_waiter, hand_over, release_key,
}

pub data Call : Type 0 where
  acquires : (key : Text) (waiter : ℕ) → Call
  gives_up : (key : Text) (waiter : ℕ) → Call
  releases : (key : Text) → Call

abbrev pub key_of : Call → Text
key_of (Call.acquires key waiter) = key
key_of (Call.gives_up key waiter) = key
key_of (Call.releases key) = key

unfoldable pub perform : Call → ProviderConcurrencyLimiter → ProviderConcurrencyLimiter
perform (Call.acquires key waiter) l = (acquire_key key waiter l).1
perform (Call.gives_up key waiter) l = remove_waiter key waiter l
perform (Call.releases key) l = (release_key key l).1

unfoldable pub perform_all : List Call → ProviderConcurrencyLimiter → ProviderConcurrencyLimiter
unfolding perform
perform_all [] l = l
perform_all (call ∷ calls) l = perform_all calls (perform call l)

-- At the key, the bound holds, and callers wait only while all slots are taken.
pub record IsBounded (l : ProviderConcurrencyLimiter) (key : Text) : Type 0 where
  pub bounded : l.in_flight key ≤ l.max_concurrency
  pub positive : 0 < l.max_concurrency
  pub waits_for_slot : (l.waiters key ≡ []) ⊎ (l.in_flight key ≡ l.max_concurrency)

-- A call at another key changes nothing here.
perform-other :
    (call : Call) (l : ProviderConcurrencyLimiter) (key : Text)
    → (key == key_of call) ≡ false
    → ((perform call l).in_flight key ≡ l.in_flight key)
      × ((perform call l).waiters key ≡ l.waiters key)
      × ((perform call l).max_concurrency ≡ l.max_concurrency)
unfolding perform acquire_key try_acquire_key remove_waiter release_key hand_over
perform-other (Call.acquires k waiter) l key other = ground arith
perform-other (Call.gives_up k waiter) l key other = ground arith
perform-other (Call.releases k) l key other = ground arith

without-nil : (waiter : ℕ) → without waiter [] ≡ []
unfolding without
without-nil waiter = refl

perform-same :
    (call : Call) (l : ProviderConcurrencyLimiter)
    → IsBounded l (key_of call)
    → IsBounded (perform call l) (key_of call)
unfolding perform acquire_key try_acquire_key remove_waiter release_key hand_over
perform-same (Call.acquires k waiter) l b = ground (arith, (==_iff k k).1 refl)
perform-same (Call.gives_up k waiter) l b = ground (arith, (==_iff k k).1 refl, without-nil waiter)
perform-same (Call.releases k) l b = ground (arith, (==_iff k k).1 refl)

perform-IsBounded :
    (call : Call) (l : ProviderConcurrencyLimiter)
    → ((key : Text) → IsBounded l key)
    → (key : Text) → IsBounded (perform call l) key
perform-IsBounded call l b key = elim (Bool-cases (key == key_of call)) [
  | inl t ↦
      subst (IsBounded (perform call l)) (sym ((==_iff key (key_of call)).0 t))
        (perform-same call l (b (key_of call)))
  | inr f ↦
      let (n, w, m) = perform-other call l key f in
      let old = b key in
      record {
        bounded = rw (n, m) old.bounded;
        positive = rw m old.positive;
        waits_for_slot = rw (n, w, m) old.waits_for_slot;
      }
]

perform_all-IsBounded :
    (calls : List Call) (l : ProviderConcurrencyLimiter)
    → ((key : Text) → IsBounded l key)
    → (key : Text) → IsBounded (perform_all calls l) key
unfolding perform_all
perform_all-IsBounded [] l b key = b key
perform_all-IsBounded (call ∷ calls) l b key =
    perform_all-IsBounded calls (perform call l) (perform-IsBounded call l b) key

created-IsBounded :
    (max_concurrency : ℕ) (key : Text) {l : ProviderConcurrencyLimiter}
    → create max_concurrency ≡ ok l
    → IsBounded l key
unfolding create
created-IsBounded max_concurrency key h = ground arith

-- Over any calls on a new limiter, waiters that give up included, no key has more calls in flight than
-- the limit, and a caller waits at a key only while all its slots are taken.
pub create-IsBounded :
    (max_concurrency : ℕ) (calls : List Call) (key : Text) {l : ProviderConcurrencyLimiter}
    → create max_concurrency ≡ ok l
    → IsBounded (perform_all calls l) key
create-IsBounded max_concurrency calls key {l} h =
    perform_all-IsBounded calls l (λ k. created-IsBounded max_concurrency k h) key

-- Provider ids in which the separator does not occur.
abbrev pub HasNoSeparator : Text → Type 0
HasNoSeparator s = All (λ c. c ≢ 0) s

append-separator :
    (p q s t : Text)
    → HasNoSeparator p
    → HasNoSeparator q
    → p ++ 0 ∷ s ≡ q ++ 0 ∷ t
    → (p ≡ q) × (s ≡ t)
append-separator [] [] s t h k e = (refl, cc)
append-separator [] (d ∷ q) s t h k e = absurd (k.0 (cc))
append-separator (c ∷ p) [] s t h k e = absurd (h.0 (cc))
append-separator (c ∷ p) (d ∷ q) s t h k e =
    let (same, rest) = append-separator p q s t h.1 k.1 (cc) in
    let first : c ≡ d = cc in (rw (first, same) refl, rest)

quota_key-ok :
    (provider_id credential_scope : Text) {key : Text}
    → quota_key provider_id credential_scope ≡ ok key
    → key ≡ provider_id ++ 0 ∷ credential_scope
unfolding quota_key
quota_key-ok provider_id credential_scope h = ground arith

-- Two identities have two keys.
quota_key-inj :
    (p s q t : Text)
    → HasNoSeparator p
    → HasNoSeparator q
    → {key : Text} → quota_key p s ≡ ok key
    → quota_key q t ≡ ok key
    → (p ≡ q) × (s ≡ t)
quota_key-inj p s q t h k a b =
    append-separator p q s t h k (sym (quota_key-ok p s a) ∙ quota_key-ok q t b)

perform_all-other :
    (calls : List Call) (l : ProviderConcurrencyLimiter) (key other : Text)
    → (other == key) ≡ false
    → All (λ call. key_of call ≡ key) calls
    → ((perform_all calls l).in_flight other ≡ l.in_flight other)
      × ((perform_all calls l).waiters other ≡ l.waiters other)
unfolding perform_all
perform_all-other [] l key other differs at = (refl, refl)
perform_all-other (call ∷ calls) l key other differs at =
    let (n, w, _) = perform-other call l other (ap (λ k. other == k) at.0 ∙ differs) in
    let (ns, ws) = perform_all-other calls (perform call l) key other differs at.1 in
    (ns ∙ n, ws ∙ w)

-- Calls for one provider and scope, however many, change neither the calls in flight nor the waiters of
-- another provider or scope, where no provider id holds the separator of the key.
pub perform_all-isolated :
    (p s q t : Text) (calls : List Call) (l : ProviderConcurrencyLimiter) {key other : Text}
    → quota_key p s ≡ ok key
    → quota_key q t ≡ ok other
    → HasNoSeparator p
    → HasNoSeparator q
    → ¬ ((p ≡ q) × (s ≡ t))
    → All (λ call. key_of call ≡ key) calls
    → ((perform_all calls l).in_flight other ≡ l.in_flight other)
      × ((perform_all calls l).waiters other ≡ l.waiters other)
perform_all-isolated p s q t calls l {key} {other} a b h k differ at =
    elim (Bool-cases (other == key)) [
      | inl same ↦
          absurd (differ (quota_key-inj p s q t h k a (b ∙ ap ok ((==_iff other key).0 same))))
      | inr apart ↦ perform_all-other calls l key other apart at
    ]
