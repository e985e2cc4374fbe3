-- ===== src/RateLimit/Tokens.antt =====
-- repram-mcp/src/node/middleware.ts: how many requests the rate limiter lets through.
use repram.Common.{
  ℕ, ◌+◌, ◌-◌, ◌*◌, ◌≤◌, ◌≡◌, refl, ap, Bool, true, false, Option, none, some, Str, ◌==◌, ltb,
  arith, Option-cases, inl, inr, Bool-cases,
}
use repram.Common.JsMap.{lookup, lookup-insert, lookup-insert_self}
use repram.RateLimit.{
  TokenBucket, RateLimiter, Floats, tokens_to_add, refill, take_token, bucket_of, allow,
}

-- No bucket holds more than the burst.
abbrev pub IsFilled : ℕ → Str → TokenBucket → Type 0
IsFilled burst ip bucket = bucket.tokens ≤ burst

abbrev pub cost : Bool → ℕ
cost true = 1
cost false = 0

-- A request that is let through takes one token, and another takes none.
take_token-cost :
    (b : TokenBucket)
    → (cost (take_token b).1 + (take_token b).0.tokens ≡ b.tokens)
      × ((take_token b).0.last_refill ≡ b.last_refill)
unfolding take_token
take_token-cost b = ground arith

-- The tokens of a bucket and those that it has time for, in thousandths.
abbrev pub budget : ℕ → ℕ → TokenBucket → ℕ
budget now rate b = b.tokens * 1000 + (now - b.last_refill) * rate

budget-later :
    (now later rate : ℕ) (b : TokenBucket)
    → b.last_refill ≤ now
    → now ≤ later
    → budget later rate b ≡ budget now rate b + (later - now) * rate
budget-later now later rate b h k =
    let split : later - b.last_refill ≡ (now - b.last_refill) + (later - now) = omega arith in
    rw split (grind arith)

module _ (f : Floats) where
  refill-budget :
      (now rate burst : ℕ) (b : TokenBucket)
      → b.last_refill ≤ now
      → (budget now rate (refill f now rate burst b) ≤ budget now rate b)
        × ((refill f now rate burst b).last_refill ≤ now)
  unfolding refill tokens_to_add
  refill-budget now rate burst b h = elim (Bool-cases (ltb b.last_refill now)) [
    | inl later ↦
        let exact = f.tokens_for-le (now - b.last_refill) rate in
        let zero_time : now - now ≡ 0 = omega arith in
        elim (Bool-cases (ltb 0 (f.tokens_for (now - b.last_refill) rate))) [
          | inl some_added ↦ rw (later, some_added, zero_time) (omega arith, omega arith)
          | inr none_added ↦ rw (later, none_added) (omega arith, h)
        ]
    | inr same ↦ rw same (omega arith, h)
  ]

-- What the address may still do, given its bucket; an address without one has a full bucket.
abbrev pub allowance : ℕ → ℕ → ℕ → Option TokenBucket → ℕ
allowance now rate burst none = burst * 1000
allowance now rate burst (some b) = budget now rate b

abbrev pub BeforeNow : ℕ → Option TokenBucket → Type 0
BeforeNow now none = Unit
BeforeNow now (some b) = b.last_refill ≤ now

pub allowance-later :
    (now later rate burst : ℕ) (o : Option TokenBucket)
    → BeforeNow now o
    → now ≤ later
    → (allowance later rate burst o ≤ allowance now rate burst o + (later - now) * rate)
      × BeforeNow later o
allowance-later now later rate burst none h k = (omega arith, tt)
allowance-later now later rate burst (some b) h k =
    (omega (arith, budget-later now later rate b h k), omega arith)

bucket_of-allowance :
    (now : ℕ) (r : RateLimiter) (ip : Str)
    → BeforeNow now (lookup ip r.buckets)
    → (budget now r.rate (bucket_of now r ip) ≡ allowance now r.rate r.burst (lookup ip r.buckets))
      × ((bucket_of now r ip).last_refill ≤ now)
unfolding bucket_of
bucket_of-allowance now r ip h = elim (Option-cases (lookup ip r.buckets)) [
  | inl e ↦
      let zero_time : now - now ≡ 0 = omega arith in
      rw (e, bucket_of, zero_time) (omega arith, omega arith)
  | inr (b, e) ↦ let past : b.last_refill ≤ now = ground arith in rw (e, bucket_of) (refl, past)
]

module _ (f : Floats) where
  -- A request of the address itself: what it takes and what is left come from the allowance.
  pub allow-own :
      (now : ℕ) (r : RateLimiter) (ip : Str)
      → BeforeNow now (lookup ip r.buckets)
      → let r' = (allow f now r ip).0 in
        (cost (allow f now r ip).1 * 1000 + allowance now r.rate r.burst (lookup ip r'.buckets)
          ≤ allowance now r.rate r.burst (lookup ip r.buckets))
        × BeforeNow now (lookup ip r'.buckets)
  unfolding allow
  allow-own now r ip h =
      let b = bucket_of now r ip in
      let (start, past) = bucket_of-allowance now r ip h in
      let (filled, past') = refill-budget f now r.rate r.burst b past in
      let filled_bucket = refill f now r.rate r.burst b in
      let (taken, same) = take_token-cost filled_bucket in
      let at : now - (take_token filled_bucket).0.last_refill ≡ now - filled_bucket.last_refill =
        ap (λ x. now - x) same in
      rw (lookup-insert_self ip (take_token filled_bucket).0 r.buckets, at)
        (omega arith, rw same past')

  -- A request of another address leaves the bucket alone.
  pub allow-other :
      (now : ℕ) (r : RateLimiter) (ip other : Str)
      → (other == ip) ≡ false
      → lookup ip (allow f now r other).0.buckets ≡ lookup ip r.buckets
  unfolding allow
  allow-other now r ip other h =
      let b = take_token (refill f now r.rate r.burst (bucket_of now r other)) in
      rw (lookup-insert other ip b.0 r.buckets, h)
