-- ===== src/Inference/Quota/Steps.antt =====
-- What one call of the token bucket of cli/src/inference/provider-resilience.ts spends.
use ouroboros_runtime.Base.{
  ℕ, ◌+◌, ◌-◌, ◌*◌, ◌≤◌, ◌≡◌, refl, ap, ◌∙◌, inl, inr, false, some, ltb, ◌==◌, ok, Bool-cases,
  arith, max,
}
use native.Mathlib.Nat.{mul_assoc}
use ouroboros_runtime.Base.Text.{Text, text_eq}
use ouroboros_runtime.Inference.Quota.{
  Numbers, ProviderQuotaLimiter, QuotaBucket, bucket_for, is_deferred, refill, or_zero, take_token,
  minimum, refilled_tokens, try_acquire_key, defer_key,
}
use ouroboros_runtime.Inference.Quota.Calls.{
  Call, key_of, cost, asked, deferred, perform, result-cases, set-same,
}
use ouroboros_runtime.Inference.Quota.Rounding.{
  Rounding, sum_mul, minus_mul, mul_mono, refilled-within,
}

module _ (numbers : Numbers) where
  -- A call at another key leaves the bucket as it is.
  pub perform-other :
      (call : Call) (l : ProviderQuotaLimiter numbers.Number) (key : Text)
      → (key == key_of call) ≡ false
      → ((perform numbers call l).1.buckets key ≡ l.buckets key)
        × ((perform numbers call l).1.capacity ≡ l.capacity)
        × ((perform numbers call l).1.refill_tokens ≡ l.refill_tokens)
        × ((perform numbers call l).1.refill_interval_ms ≡ l.refill_interval_ms)
  unfolding perform try_acquire_key defer_key asked deferred
  perform-other (Call.asks k now) l key other =
      elim (result-cases (refill numbers l now (bucket_for numbers l now (l.buckets k)))) [
        | inl (e, r) ↦ rw r (refl, refl, refl, refl)
        | inr (c, r) ↦ rw (r, other) (refl, refl, refl, refl)
      ]
  perform-other (Call.defers k until now) l key other =
      elim (result-cases (refill numbers l now (bucket_for numbers l now (l.buckets k)))) [
        | inl (e, r) ↦ rw r (refl, refl, refl, refl)
        | inr (c, r) ↦ rw (r, other) (refl, refl, refl, refl)
      ]

module _ {numbers : Numbers} (rounding : Rounding numbers) where
  abbrev Bucket : Type 0
  Bucket = QuotaBucket numbers.Number

  abbrev Limiter : Type 0
  Limiter = ProviderQuotaLimiter numbers.Number

  -- What `tokens` are worth.
  abbrev pub worth : Bucket → ℕ
  worth b = rounding.value b.tokens

  -- The interval is positive, and the capacity so small that it is exact.
  pub record IsConfigured (l : Limiter) : Type 0 where
    pub positive : 1 ≤ l.refill_interval_ms
    pub fits : l.capacity * rounding.unit ≤ rounding.bound

  abbrev pub Full : Limiter → Bucket → Type 0
  Full l b = worth b ≤ l.capacity * rounding.unit

  -- From the bucket `b` on, `n` requests are admitted in `k` calls: their tokens and what is left are no
  -- more than what was held, what the time between the refills has added, and three roundings a call.
  -- All is counted in parts, of which `refill_interval_ms` make the smallest number.
  pub record Spends (l m : Limiter) (key : Text) (b : Bucket) (n k : ℕ) : Type 0 where
    pub bucket : Bucket
    pub left : m.buckets key ≡ some bucket
    pub spent :
        n * (rounding.unit * l.refill_interval_ms)
          + worth bucket * l.refill_interval_ms
          + b.last_refill_at * (l.refill_tokens * rounding.unit)
        ≤ worth b * l.refill_interval_ms
          + bucket.last_refill_at * (l.refill_tokens * rounding.unit)
          + k * (3 * (rounding.slack * l.refill_interval_ms))
    pub later : b.last_refill_at ≤ bucket.last_refill_at
    pub full : Full l bucket
    pub same_capacity : m.capacity ≡ l.capacity
    pub same_tokens : m.refill_tokens ≡ l.refill_tokens
    pub same_interval : m.refill_interval_ms ≡ l.refill_interval_ms

  refill-ok :
      (l : Limiter) (now : ℕ) (b c : Bucket)
      → IsConfigured l
      → Full l b
      → refill numbers l now b ≡ ok c
      → Full l c
        × (worth c * l.refill_interval_ms + b.last_refill_at * (l.refill_tokens * rounding.unit)
            ≤ worth b * l.refill_interval_ms
              + now * (l.refill_tokens * rounding.unit)
              + 2 * (rounding.slack * l.refill_interval_ms))
        × (c.last_refill_at ≡ now)
        × (b.last_refill_at ≤ now)
  unfolding refill
  refill-ok l now b c g f h = elim (Bool-cases (ltb now b.last_refill_at)) [
    | inl backwards ↦ absurd (ground arith)
    | inr forwards ↦
        let later : b.last_refill_at ≤ now = ground arith in
        let rate = l.refill_tokens * rounding.unit in
        let flows = minus_mul now b.last_refill_at rate later in
        let (capped, within) =
          refilled-within rounding l (now - b.last_refill_at) b.tokens g.positive g.fits in
        elim (Bool-cases (ltb 0 (now - b.last_refill_at))) [
          | inl some_time ↦
              let tokens : c.tokens
                  ≡ minimum numbers (numbers.whole l.capacity)
                      (numbers.plus b.tokens (refilled_tokens numbers l (now - b.last_refill_at))) =
                ground arith in
              let worths = ap rounding.value tokens in
              let scaled = ap (λ v. v * l.refill_interval_ms) worths in
              (omega arith, omega arith, ground arith, later)
          | inr at_once ↦
              let tokens : c.tokens ≡ b.tokens = ground arith in
              let worths = ap rounding.value tokens in
              let scaled = ap (λ v. v * l.refill_interval_ms) worths in
              let same : b.last_refill_at ≡ now = ground arith in
              let timed = ap (λ t. t * rate) same in (omega arith, omega arith, ground arith, later)
        ]
  ]

  -- One token, rounded.
  take_token-spends :
      (l : Limiter) (now : ℕ) (c : Bucket)
      → worth c ≤ rounding.bound
      → let (admission, left) = take_token numbers l now c in
        (left.last_refill_at ≡ c.last_refill_at)
        × (cost admission * rounding.unit + worth left ≤ worth c + rounding.slack)
        × (worth left ≤ worth c)
  unfolding take_token is_deferred cost
  take_token-spends l now c fits =
      let one = rounding.whole_exact 1 (let within = rounding.one_within in omega arith) in
      let exact = rounding.below_exact c.tokens (numbers.whole 1) in
      let taken = rounding.minus_within c.tokens (numbers.whole 1) in
      let small = rounding.slack_within in
      elim (Bool-cases (is_deferred now c.next_eligible_at)) [
        | inl waits ↦ rw (take_token, waits) (refl, omega arith, omega arith)
        | inr free ↦ elim (Bool-cases (numbers.is_below c.tokens (numbers.whole 1))) [
          | inl empty ↦ rw (take_token, free, empty) (refl, omega arith, omega arith)
          | inr holds ↦
              let held : rounding.value (numbers.whole 1) ≤ worth c = ground arith in
              let left = taken held fits in
              rw (take_token, free, holds) (refl, omega arith, omega arith)
        ]
      ]

  pub unspent :
      (l : Limiter) (key : Text) (b : Bucket) (k : ℕ)
      → l.buckets key ≡ some b
      → Full l b
      → Spends l l key b 0 k
  unspent l key b k h f = record {
    bucket = b;
    left = h;
    spent = omega arith;
    later = omega arith;
    full = f;
    same_capacity = refl;
    same_tokens = refl;
    same_interval = refl;
  }

  -- A token that is taken from a refilled bucket.
  spent_at_once :
      (interval rate unit slack wb wc wl n from now : ℕ)
      → wc * interval + from * rate ≤ wb * interval + now * rate + 2 * (slack * interval)
      → n * unit + wl ≤ wc + slack
      → n * (unit * interval) + wl * interval + from * rate
        ≤ wb * interval + now * rate + 1 * (3 * (slack * interval))
  spent_at_once interval rate unit slack wb wc wl n from now flows taken =
      let scaled = mul_mono (n * unit + wl) (wc + slack) interval taken in
      let left = sum_mul (n * unit) wl interval in
      let right = sum_mul wc slack interval in
      let assoc : n * unit * interval ≡ n * (unit * interval) = mul_assoc n unit interval in
      omega arith

  -- A call at the key whose bucket is `b`.
  pub perform-same :
      (call : Call) (l : Limiter) (b : Bucket)
      → IsConfigured l
      → l.buckets (key_of call) ≡ some b
      → Full l b
      → Spends l (perform numbers call l).1 (key_of call) b (perform numbers call l).0 1
  unfolding perform try_acquire_key defer_key bucket_for asked deferred
  perform-same (Call.asks key now) l b g h f = elim (result-cases (refill numbers l now b)) [
    | inl (e, r) ↦ rw (h, r) (unspent l key b 1 h f)
    | inr (c, r) ↦
        let (full, flows, at, late) = refill-ok l now b c g f r in
        let fits = g.fits in
        let (same, taken, less) = take_token-spends l now c (omega arith) in
        let last : (take_token numbers l now c).1.last_refill_at ≡ now = same ∙ at in
        let timed = ap (λ t. t * (l.refill_tokens * rounding.unit)) last in
        let spent =
          spent_at_once l.refill_interval_ms (l.refill_tokens * rounding.unit) rounding.unit
            rounding.slack (worth b) (worth c) (worth (take_token numbers l now c).1)
            (cost (take_token numbers l now c).0) b.last_refill_at now flows taken in
        rw (h, r)
          (record {
            bucket = (take_token numbers l now c).1;
            left = set-same key (some (take_token numbers l now c).1) l.buckets;
            spent = omega arith;
            later = omega arith;
            full = omega arith;
            same_capacity = refl;
            same_tokens = refl;
            same_interval = refl;
          })
  ]
  perform-same (Call.defers key until now) l b g h f =
      elim (result-cases (refill numbers l now b)) [
        | inl (e, r) ↦ rw (h, r) (unspent l key b 1 h f)
        | inr (c, r) ↦
            let (full, flows, at, late) = refill-ok l now b c g f r in
            let left = record c {
              next_eligible_at = some (max (or_zero c.next_eligible_at) until);
            } in
            let timed = ap (λ t. t * (l.refill_tokens * rounding.unit)) at in
            rw (h, r)
              (record {
                bucket = left;
                left = set-same key (some left) l.buckets;
                spent = omega arith;
                later = omega arith;
                full = full;
                same_capacity = refl;
                same_tokens = refl;
                same_interval = refl;
              })
      ]
