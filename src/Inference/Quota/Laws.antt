-- ===== src/Inference/Quota/Laws.antt =====
-- What the token bucket of cli/src/inference/provider-resilience.ts promises.
use ouroboros_runtime.Base.{
  ℕ, suc, ◌+◌, ◌*◌, ◌≡◌, sym, subst, ap, ◌∙◌, inl, inr, some, List, [], ◌∷◌, length, if◌then◌else◌,
  ◌==◌, ==_iff, Bool-cases, arith,
}
use ouroboros_runtime.Base.Text.{Text, text_eq}
use ouroboros_runtime.Inference.Quota.{Numbers, ProviderQuotaLimiter, QuotaBucket}
use ouroboros_runtime.Inference.Quota.Calls.{Call, key_of, perform, perform_all, admitted}
use ouroboros_runtime.Inference.Quota.Rounding.{Rounding, sum_mul}
use ouroboros_runtime.Inference.Quota.Steps.{
  IsConfigured, Full, Spends, unspent, perform-same, perform-other,
}

module _ {numbers : Numbers} (rounding : Rounding numbers) where
  abbrev Bucket : Type 0
  Bucket = QuotaBucket numbers.Number

  abbrev Limiter : Type 0
  Limiter = ProviderQuotaLimiter numbers.Number

  -- What one call spends, counted at the key.
  perform-Spends :
      (call : Call) (l : Limiter) (key : Text) (b : Bucket)
      → IsConfigured rounding l
      → l.buckets key ≡ some b
      → Full rounding l b
      → Spends rounding l
          (perform numbers call l).1
          key
          b
          (if key == key_of call then (perform numbers call l).0 else 0)
          1
  perform-Spends call l key b g h f = elim (Bool-cases (key == key_of call)) [
    | inl t ↦
        let e = (==_iff key (key_of call)).0 t in
        rw t (
          subst (λ k. Spends rounding l (perform numbers call l).1 k b (perform numbers call l).0 1)
            (sym e) (perform-same rounding call l b g (ap l.buckets (sym e) ∙ h) f))
    | inr other ↦
        let (kept, x, y, z) = perform-other numbers call l key other in
        rw other (record {
          bucket = b;
          left = kept ∙ h;
          spent = omega arith;
          later = omega arith;
          full = f;
          same_capacity = x;
          same_tokens = y;
          same_interval = z;
        })
  ]

  -- One call, then others.
  followed_by :
      {l m n : Limiter} {key : Text} {b : Bucket} {i j k : ℕ}
      → (s : Spends rounding l m key b i 1) → Spends rounding m n key s.bucket j k
      → Spends rounding l n key b (i + j) (suc k)
  followed_by {l} {m} {n} {key} {b} {i} {j} {k} s t =
      let costs = sum_mul i j (rounding.unit * l.refill_interval_ms) in
      let slacks = sum_mul 1 k (3 * (rounding.slack * l.refill_interval_ms)) in
      record {
        bucket = t.bucket;
        left = t.left;
        spent = let later = rw (s.same_interval, s.same_tokens) at t.spent in omega arith;
        later = omega arith;
        full = rw s.same_capacity at t.full;
        same_capacity = t.same_capacity ∙ s.same_capacity;
        same_tokens = t.same_tokens ∙ s.same_tokens;
        same_interval = t.same_interval ∙ s.same_interval;
      }

  -- Where floating point operations round up by no more than a slack, the interval is positive and the
  -- capacity is a number that is exact: over any calls at any keys, and whatever the clock reads, the
  -- requests that a bucket admits cost no more than what it held, at most the capacity, what the time
  -- between its refills has added, and three roundings a call; nor does it ever hold more than the
  -- capacity.
  pub perform_all-Spends :
      (calls : List Call) (l : Limiter) (key : Text) (b : Bucket)
      → IsConfigured rounding l
      → l.buckets key ≡ some b
      → Full rounding l b
      → Spends rounding l
          (perform_all numbers calls l)
          key
          b
          (admitted numbers key calls l)
          (length calls)
  unfolding perform_all admitted
  perform_all-Spends [] l key b g h f = unspent rounding l key b 0 h f
  perform_all-Spends (call ∷ calls) l key b g h f =
      let s = perform-Spends call l key b g h f in
      followed_by s (
        perform_all-Spends calls (perform numbers call l).1 key s.bucket
          (record { positive = rw s.same_interval g.positive; fits = rw s.same_capacity g.fits })
          s.left (rw s.same_capacity s.full))
