-- ===== src/RateLimit.antt =====
-- repram-mcp/src/node/middleware.ts: the rate limiter and its token buckets.
-- The clock is an argument. The number of tokens for an elapsed time is a computation on floats,
-- `Math.floor(elapsed / 1000 * rate)`, and a parameter of what follows.
use repram.Common.{
  ℕ, ◌+◌, ◌-◌, ◌*◌, ◌≤◌, min, Bool, true, false, not, Option, none, some, List, [], ◌∷◌, Str, ltb,
  leb, if◌then◌else◌,
}
use repram.Common.JsMap.{JsMap, lookup, insert, retain}
pub mod Tokens
pub mod Window

pub record TokenBucket : Type 0 where
  pub tokens : ℕ
  pub last_refill : ℕ

pub record RateLimiter : Type 0 where
  pub buckets : JsMap TokenBucket
  pub rate : ℕ
  pub burst : ℕ
  -- `cleanupTimer` is set.
  pub cleanup_timer : Bool

unfoldable pub init : ℕ → ℕ → RateLimiter
init rate burst = record { buckets = []; rate = rate; burst = burst; cleanup_timer = true }

-- The floats' answer for the milliseconds elapsed and the rate, never more than the exact product.
pub record Floats : Type 0 where
  pub tokens_for : ℕ → ℕ → ℕ
  pub tokens_for-le : (elapsed rate : ℕ) → tokens_for elapsed rate * 1000 ≤ elapsed * rate

-- A bucket after a request, and whether the request is let through.
unfoldable pub take_token : TokenBucket → TokenBucket × Bool
take_token bucket =
    if ltb 0 bucket.tokens
    then (record bucket { tokens = bucket.tokens - 1 }, true)
    else (bucket, false)

-- The bucket of the address, or a full one.
unfoldable pub bucket_of : ℕ → RateLimiter → Str → TokenBucket
bucket_of now r ip = elim (lookup ip r.buckets) [
  | none ↦ record { tokens = r.burst; last_refill = now }
  | some bucket ↦ bucket
]

module _ (f : Floats) where
  -- A clock that went back gives a negative time and no tokens.
  unfoldable pub tokens_to_add : ℕ → ℕ → ℕ → ℕ
  tokens_to_add now last_refill rate =
      if ltb last_refill now then f.tokens_for (now - last_refill) rate else 0

  unfoldable pub refill : ℕ → ℕ → ℕ → TokenBucket → TokenBucket
  unfolding tokens_to_add
  refill now rate burst bucket =
      let added = tokens_to_add now bucket.last_refill rate in
      if ltb 0 added
      then record { tokens = min burst (bucket.tokens + added); last_refill = now }
      else bucket

  unfoldable pub allow : ℕ → RateLimiter → Str → RateLimiter × Bool
  allow now r ip =
      let (bucket, allowed) = take_token (refill now r.rate r.burst (bucket_of now r ip)) in
      (record r { buckets = insert ip bucket r.buckets }, allowed)

-- `Date.now() - 10 * 60_000`, which may be negative: `lastRefill < cutoff` with both sides raised.
abbrev pub is_stale : ℕ → Str → TokenBucket → Bool
is_stale now ip bucket = ltb (bucket.last_refill + 600000) now

unfoldable pub cleanup_stale : ℕ → RateLimiter → RateLimiter
cleanup_stale now r = record r {
  buckets = retain (λ ip bucket. not (is_stale now ip bucket)) r.buckets;
}

unfoldable pub close : RateLimiter → RateLimiter
close r = record r { cleanup_timer = false }
