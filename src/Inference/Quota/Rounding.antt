-- ===== src/Inference/Quota/Rounding.antt =====
-- How far the arithmetic of JavaScript may be off in the token bucket of
-- cli/src/inference/provider-resilience.ts.
use ouroboros_runtime.Base.{
  ℕ, zero, suc, ◌+◌, ◌-◌, ◌*◌, ◌≤◌, ◌≡◌, ap, ◌∙◌, inl, inr, ltb, leb, Bool-cases, arith,
}
use ouroboros_runtime.Inference.Quota.{Numbers, ProviderQuotaLimiter, minimum, refilled_tokens}

-- What the arithmetic of floating point numbers promises of the finite ones that are not negative. Each of
-- them is a multiple of one smallest number, of which `unit` make 1. Whole numbers up to `bound` are
-- exact and comparisons are exact. As long as a result is not above `bound`, an operation adds no more
-- than `slack` to the exact result, and the quotient of a product of two whole numbers by a third no more
-- than that either.
pub record Rounding (numbers : Numbers) : Type 0 where
  pub unit : ℕ
  pub slack : ℕ
  pub bound : ℕ
  pub value : numbers.Number → ℕ
  pub one_within : unit ≤ bound
  pub slack_within : slack ≤ unit
  pub whole_exact : (n : ℕ) → n * unit ≤ bound → value (numbers.whole n) ≡ n * unit
  pub below_exact : (x y : numbers.Number) → numbers.is_below x y ≡ ltb (value x) (value y)
  pub plus_within :
      (x y : numbers.Number)
      → value x + value y ≤ bound
      → value (numbers.plus x y) ≤ value x + value y + slack
  pub minus_within :
      (x y : numbers.Number)
      → value y ≤ value x
      → value x ≤ bound
      → value (numbers.minus x y) + value y ≤ value x + slack
  pub share_within :
      (m n d : ℕ)
      → 1 ≤ d
      → m * (n * unit) ≤ bound * d
      → value (numbers.over (numbers.times (numbers.whole m) (numbers.whole n)) (numbers.whole d))
          * d
        ≤ m * (n * unit) + slack * d

pub sum_mul : (a b r : ℕ) → a * r + b * r ≡ (a + b) * r
sum_mul zero b r = grind arith
sum_mul (suc a) b r = let ih = sum_mul a b r in grind arith

pub minus_mul : (a b r : ℕ) → b ≤ a → (a - b) * r + b * r ≡ a * r
minus_mul a b r h = sum_mul (a - b) b r ∙ ap (λ n. n * r) (let e : a - b + b ≡ a = omega arith in e)

pub mul_mono : (a b r : ℕ) → a ≤ b → a * r ≤ b * r
mul_mono a b r h = let e = minus_mul b a r h in omega arith

-- Tokens `t` and a refill `q` of `x` parts in `d`, of which `p` is the rounded sum and `c` what the bucket
-- keeps of it.
refill_within :
    (t q p c d x slack bound : ℕ)
    → c ≤ bound
    → c ≤ p
    → (t + q ≤ bound → p ≤ t + q + slack)
    → (x ≤ bound * d → q * d ≤ x + slack * d)
    → c * d ≤ t * d + x + 2 * (slack * d)
refill_within t q p c d x slack bound cb cp sums shares = elim (Bool-cases (leb x (bound * d))) [
  | inr over ↦ let kept = mul_mono c bound d cb in ground arith
  | inl within ↦
      let share = shares (ground arith) in
      let sum = sum_mul t q d in
      elim (Bool-cases (leb (t + q) bound)) [
        | inr over ↦
            let less : c ≤ t + q = ground arith in
            let kept = mul_mono c (t + q) d less in omega arith
        | inl fits ↦
            let rounded = sums (ground arith) in
            let less : c ≤ t + q + slack = omega arith in
            let kept = mul_mono c (t + q + slack) d less in
            let sums = sum_mul (t + q) slack d in omega arith
      ]
]

module _ {numbers : Numbers} (rounding : Rounding numbers) where
  pub minimum-value :
      (x y : numbers.Number)
      → (rounding.value (minimum numbers x y) ≤ rounding.value x)
        × (rounding.value (minimum numbers x y) ≤ rounding.value y)
  unfolding minimum
  minimum-value x y = let exact = rounding.below_exact y x in ground arith

  -- A refill that waits `elapsed` adds at most what is due, and what two operations round up.
  pub refilled-within :
      (l : ProviderQuotaLimiter numbers.Number) (elapsed : ℕ) (tokens : numbers.Number)
      → 1 ≤ l.refill_interval_ms
      → l.capacity * rounding.unit ≤ rounding.bound
      → let kept =
          minimum numbers
            (numbers.whole l.capacity)
            (numbers.plus tokens (refilled_tokens numbers l elapsed)) in
        (rounding.value kept ≤ l.capacity * rounding.unit)
        × (rounding.value kept * l.refill_interval_ms
            ≤ rounding.value tokens * l.refill_interval_ms
              + elapsed * (l.refill_tokens * rounding.unit)
              + 2 * (rounding.slack * l.refill_interval_ms))
  unfolding refilled_tokens
  refilled-within l elapsed tokens positive fits =
      let due = refilled_tokens numbers l elapsed in
      let full = numbers.whole l.capacity in
      let sum = numbers.plus tokens due in
      let (below_full, below_sum) = minimum-value full sum in
      let whole = rounding.whole_exact l.capacity fits in
      let capped : rounding.value (minimum numbers full sum) ≤ l.capacity * rounding.unit =
        omega arith in
      (
        capped,
        refill_within (rounding.value tokens) (rounding.value due) (rounding.value sum)
            (rounding.value (minimum numbers full sum)) l.refill_interval_ms
            (elapsed * (l.refill_tokens * rounding.unit)) rounding.slack rounding.bound
            (omega arith) below_sum (rounding.plus_within tokens due)
            (rounding.share_within elapsed l.refill_tokens l.refill_interval_ms positive),
      )
