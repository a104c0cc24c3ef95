-- ===== src/Inference/Quota/Told.antt =====
-- The time that the token bucket of cli/src/inference/provider-resilience.ts tells a refused caller.
use ouroboros_runtime.Base.{
  ℕ, ◌≤◌, ◌<◌, ◌≡◌, refl, sym, subst, ap, ◌∙◌, inl, inr, some, List, [], ◌∷◌, All, ◌==◌, ==_iff, ok,
  Bool-cases, arith, max,
}
use ouroboros_runtime.Base.Text.{Text, text_eq}
use ouroboros_runtime.Inference.Limiter.{set}
use ouroboros_runtime.Inference.Quota.{
  Numbers, ProviderQuotaLimiter, QuotaBucket, QuotaAdmission, bucket_for, is_deferred, refill,
  or_zero, take_token, time_until_next_token, try_acquire_key, defer_key,
}
use ouroboros_runtime.Inference.Quota.Calls.{
  Call, key_of, cost, asked, deferred, perform, admitted, result-cases, set-same,
}
use ouroboros_runtime.Inference.Quota.Steps.{perform-other}

-- The clock's reading at the call.
abbrev pub reading : Call → ℕ
reading (Call.asks key now) = now
reading (Call.defers key next_eligible_at now) = now

module _ (numbers : Numbers) where
  abbrev Bucket : Type 0
  Bucket = QuotaBucket numbers.Number

  abbrev Limiter : Type 0
  Limiter = ProviderQuotaLimiter numbers.Number

  -- The key has a cooldown that ends at `at` or later.
  record Waits (l : Limiter) (key : Text) (at : ℕ) : Type 0 where
    bucket : Bucket
    kept : l.buckets key ≡ some bucket
    until : ℕ
    cooldown : bucket.next_eligible_at ≡ some until
    long_enough : at ≤ until

  refill-cooldown :
      (l : Limiter) (now until : ℕ) (b c : Bucket)
      → refill numbers l now b ≡ ok c
      → b.next_eligible_at ≡ some until
      → now < until
      → c.next_eligible_at ≡ some until
  unfolding refill is_deferred
  refill-cooldown l now until b c h e before = ground arith

  take_token-deferred :
      (l : Limiter) (now until : ℕ) (c : Bucket)
      → c.next_eligible_at ≡ some until
      → now < until
      → take_token numbers l now c ≡ (QuotaAdmission.rate_limit until, c)
  unfolding take_token is_deferred or_zero
  take_token-deferred l now until c e before = ground arith

  -- A call before the end of the cooldown admits nothing and leaves the key waiting.
  perform-Waits :
      (call : Call) (l : Limiter) (at : ℕ)
      → Waits l (key_of call) at
      → reading call < at
      → ((perform numbers call l).0 ≡ 0) × Waits (perform numbers call l).1 (key_of call) at
  unfolding perform try_acquire_key defer_key bucket_for asked deferred cost or_zero
  perform-Waits (Call.asks key now) l at w before =
      elim (result-cases (refill numbers l now w.bucket)) [
        | inl (e, r) ↦ rw (w.kept, r) (refl, w)
        | inr (c, r) ↦
            let early : now < w.until = let longer = w.long_enough in omega arith in
            let cooled = refill-cooldown l now w.until w.bucket c r w.cooldown early in
            let refused = take_token-deferred l now w.until c cooled early in
            rw (w.kept, r, refused)
              (
                refl,
                record {
                  bucket = c;
                  kept = set-same key (some c) l.buckets;
                  until = w.until;
                  cooldown = cooled;
                  long_enough = w.long_enough;
                },
              )
      ]
  perform-Waits (Call.defers key until now) l at w before =
      elim (result-cases (refill numbers l now w.bucket)) [
        | inl (e, r) ↦ rw (w.kept, r) (refl, w)
        | inr (c, r) ↦
            let longer = w.long_enough in
            let early : now < w.until = omega arith in
            let cooled = refill-cooldown l now w.until w.bucket c r w.cooldown early in
            let later = max (or_zero c.next_eligible_at) until in
            let left = record c { next_eligible_at = some later } in
            rw (w.kept, r)
              (
                refl,
                record {
                  bucket = left;
                  kept = set-same key (some left) l.buckets;
                  until = later;
                  cooldown = refl;
                  long_enough = let kept = ap or_zero cooled in omega arith;
                },
              )
      ]

  -- A refusal names a time to come, and the bucket keeps it.
  take_token-refused :
      (l : Limiter) (now at : ℕ) (c : Bucket)
      → (take_token numbers l now c).0 ≡ QuotaAdmission.rate_limit at
      → ((take_token numbers l now c).1.next_eligible_at ≡ some at) × (now < at)
  unfolding take_token is_deferred or_zero time_until_next_token
  take_token-refused l now at c h = ground arith

  refused-Waits :
      (l : Limiter) (key : Text) (now at : ℕ) {m : Limiter}
      → try_acquire_key numbers key now l ≡ ok (QuotaAdmission.rate_limit at, m)
      → (now < at) × Waits m key at
  unfolding try_acquire_key
  refused-Waits l key now at {m} h =
      elim (result-cases (refill numbers l now (bucket_for numbers l now (l.buckets key)))) [
        | inl (e, r) ↦ absurd (cc (rw r at h))
        | inr (c, r) ↦
            let done = rw r at h in
            let refused : (take_token numbers l now c).0 ≡ QuotaAdmission.rate_limit at = cc done in
            let left = (take_token numbers l now c).1 in
            let stored : record l { buckets = set key (some left) l.buckets } ≡ m = cc done in
            let (cooldown, ahead) = take_token-refused l now at c refused in
            (
              ahead,
              record {
                bucket = left;
                kept = ap (λ x. x.buckets key) (sym stored) ∙ set-same key (some left) l.buckets;
                until = at;
                cooldown = cooldown;
                long_enough = omega arith;
              },
            )
      ]

  admitted-Waits :
      (calls : List Call) (l : Limiter) (key : Text) (at : ℕ)
      → Waits l key at
      → All (λ call. reading call < at) calls
      → admitted numbers key calls l ≡ 0
  unfolding admitted
  admitted-Waits [] l key at w before = refl
  admitted-Waits (call ∷ calls) l key at w (now, before) = elim (Bool-cases (key == key_of call)) [
    | inl t ↦
        let e = (==_iff key (key_of call)).0 t in
        let (nothing, waits) = perform-Waits call l at (subst (λ k. Waits l k at) e w) now in
        let rest =
          admitted-Waits calls (perform numbers call l).1 key at
            (subst (λ k. Waits (perform numbers call l).1 k at) (sym e) waits) before in
        rw (t, nothing, rest) refl
    | inr other ↦
        let (kept, _, _, _) = perform-other numbers call l key other in
        let rest =
          admitted-Waits calls (perform numbers call l).1 key at
            (record {
              bucket = w.bucket;
              kept = kept ∙ w.kept;
              until = w.until;
              cooldown = w.cooldown;
              long_enough = w.long_enough;
            })
            before in
        rw (other, rest) refl
  ]

  -- A refused request is told a time to come, and whatever calls come before that time, deferrals and
  -- calls at other keys included, none of them is a request that is admitted at the key.
  pub told-admitted :
      (l : Limiter) (key : Text) (now at : ℕ) (calls : List Call) {m : Limiter}
      → try_acquire_key numbers key now l ≡ ok (QuotaAdmission.rate_limit at, m)
      → All (λ call. reading call < at) calls
      → (now < at) × (admitted numbers key calls m ≡ 0)
  told-admitted l key now at calls {m} h before =
      let (ahead, waits) = refused-Waits l key now at h in
      (ahead, admitted-Waits calls m key at waits before)
