-- ===== src/RateLimit/Window.antt =====
-- repram-mcp/src/node/middleware.ts: the rate limiter over a history of requests and cleanups.
use repram.Common.{
  ℕ, ◌+◌, ◌-◌, ◌*◌, ◌≤◌, ◌≡◌, refl, ap, not, Option, none, some, List, [], ◌∷◌, Str, ◌==◌, eq_refl,
  eq_iff, if◌then◌else◌, arith, inl, inr, Bool-cases, ltb→lt, subst, sym,
}
use repram.Common.JsMap.{IsMap, lookup, keep_if, lookup-retain, insert-IsMap, retain-IsMap}
use repram.RateLimit.{TokenBucket, RateLimiter, Floats, init, allow, is_stale, cleanup_stale}
use repram.RateLimit.Tokens.{allowance, BeforeNow, allowance-later, allow-own, allow-other, cost}

pub data Event : Type 0 where
  request : Str → Event
  cleanup : Event

module _ (f : Floats) (ip : Str) where
  -- The state after an event, and 1 if it is a request of `ip` that is let through.
  unfoldable pub step : ℕ → Event → RateLimiter → RateLimiter × ℕ
  step now (request other) r =
      let (r', allowed) = allow f now r other in (r', if other == ip then cost allowed else 0)
  step now cleanup r = (cleanup_stale now r, 0)

  -- The requests of `ip` that are let through.
  unfoldable pub admitted : List (ℕ × Event) → RateLimiter → ℕ
  admitted [] r = 0
  admitted ((now, e) ∷ es) r = let (r', n) = step now e r in n + admitted es r'

  -- The times of the events do not fall, from the first time given to the last.
  abbrev pub Rising : ℕ → List (ℕ × Event) → ℕ → Type 0
  Rising from [] last = from ≤ last
  Rising from ((now, e) ∷ es) last = (from ≤ now) × Rising now es last

  -- What holds at a time: the map is one, and the bucket of `ip` was refilled in the past.
  abbrev IsReady : ℕ → RateLimiter → Type 0
  IsReady now r = IsMap r.buckets × BeforeNow now (lookup ip r.buckets)

  abbrev left : ℕ → RateLimiter → ℕ
  left now r = allowance now r.rate r.burst (lookup ip r.buckets)

  stale-allowance :
      (now : ℕ) (rate burst : ℕ) (o : Option TokenBucket)
      → burst ≤ 600 * rate
      → BeforeNow now o
      → (allowance now rate burst (keep_if (λ i b. not (is_stale now i b)) ip o)
          ≤ allowance now rate burst o)
        × BeforeNow now (keep_if (λ i b. not (is_stale now i b)) ip o)
  stale-allowance now rate burst none h p = (omega arith, tt)
  stale-allowance now rate burst (some b) h p = elim (Bool-cases (is_stale now ip b)) [
    | inl stale ↦
        let old = ltb→lt (b.last_refill + 600000) now stale in
        let gap : 600000 ≤ now - b.last_refill = omega arith in
        let scaled : 600000 * rate ≤ (now - b.last_refill) * rate = grind arith in
        rw stale (omega arith, tt)
    | inr fresh ↦ rw fresh (omega arith, p)
  ]

  allow-fields :
      (now : ℕ) (r : RateLimiter) (other : Str)
      → ((allow f now r other).0.rate ≡ r.rate)
        × ((allow f now r other).0.burst ≡ r.burst)
        × (IsMap r.buckets → IsMap (allow f now r other).0.buckets)
  unfolding allow
  allow-fields now r other = (refl, refl, insert-IsMap other _ r.buckets)

  -- An event spends from the allowance, and leaves the limiter ready.
  abbrev Stepped : ℕ → Event → RateLimiter → Type 0
  Stepped now e r =
      ((step now e r).1 * 1000 + left now (step now e r).0 ≤ left now r)
      × IsReady now (step now e r).0
      × ((step now e r).0.rate ≡ r.rate)
      × ((step now e r).0.burst ≡ r.burst)

  own-step :
      (now : ℕ) (r : RateLimiter)
      → IsMap r.buckets
      → BeforeNow now (lookup ip r.buckets)
      → Stepped now (request ip) r
  unfolding step
  own-step now r m p =
      let (same_rate, same_burst, keeps) = allow-fields now r ip in
      let (bound, past) = allow-own f now r ip p in
      rw (eq_refl ip, same_rate, same_burst) (bound, (keeps m, past), refl, refl)

  cleanup-step :
      (now : ℕ) (r : RateLimiter)
      → r.burst ≤ 600 * r.rate
      → IsMap r.buckets
      → BeforeNow now (lookup ip r.buckets)
      → Stepped now cleanup r
  unfolding step cleanup_stale
  cleanup-step now r h m p =
      let (less, past) = stale-allowance now r.rate r.burst (lookup ip r.buckets) h p in
      let kept = lookup-retain (λ i b. not (is_stale now i b)) ip r.buckets m in
      rw kept (omega (arith, less), (retain-IsMap _ r.buckets m, past), refl, refl)

  step-left :
      (now : ℕ) (e : Event) (r : RateLimiter)
      → r.burst ≤ 600 * r.rate
      → IsReady now r
      → Stepped now e r
  unfolding step
  step-left now (request other) r h (m, p) =
      let (same_rate, same_burst, keeps) = allow-fields now r other in
      elim (Bool-cases (other == ip)) [
        | inl own ↦
            let is_ip = (eq_iff other ip).0 own in
            subst (λ o. Stepped now (request o) r) (sym is_ip) (own-step now r m p)
        | inr foreign ↦
            let same = allow-other f now r ip other foreign in
            rw (foreign, same_rate, same_burst, same) (omega arith, (keeps m, p), refl, refl)
      ]
  step-left now cleanup r h (m, p) = cleanup-step now r h m p

  Rising→le : (from last : ℕ) (es : List (ℕ × Event)) → Rising from es last → from ≤ last
  Rising→le from last [] t = t
  Rising→le from last ((now, e) ∷ es) (t, ts) = let rest = Rising→le now last es ts in omega arith

  split-rate :
      (from now last rate : ℕ)
      → from ≤ now
      → now ≤ last
      → (last - from) * rate ≡ (now - from) * rate + (last - now) * rate
  split-rate from now last rate a b =
      let split : last - from ≡ (now - from) + (last - now) = omega arith in rw split (grind arith)

  admitted-left :
      (from last : ℕ) (es : List (ℕ × Event)) (r : RateLimiter)
      → r.burst ≤ 600 * r.rate
      → IsReady from r
      → Rising from es last
      → admitted es r * 1000 ≤ left from r + (last - from) * r.rate
  unfolding admitted
  admitted-left from last [] r h ready t = omega arith
  admitted-left from last ((now, e) ∷ es) r h (m, p) (t, ts) =
      let (later, past) = allowance-later from now r.rate r.burst (lookup ip r.buckets) p t in
      let (spent, ready, same_rate, same_burst) = step-left now e r h (m, past) in
      let r' = (step now e r).0 in
      let rest = admitted-left now last es r' (rw (same_rate, same_burst) h) ready ts in
      let split = split-rate from now last r.rate t (Rising→le now last es ts) in
      let rest_rate = ap (λ x. (last - now) * x) same_rate in omega arith

-- The limiter lets through no more than the burst and what the rate allows: of the requests of one
-- address, in any history of requests of all addresses and cleanups that starts with an empty
-- limiter, at most burst + rate * seconds pass. The cleanup that forgets an address after ten idle
-- minutes gives it no more, provided that ten minutes refill a bucket (burst <= 600 * rate; the
-- server sets the burst to twice the rate).
pub admitted-le :
    (f : Floats) (ip : Str) (rate burst from last : ℕ) (es : List (ℕ × Event))
    → burst ≤ 600 * rate
    → Rising f ip from es last
    → admitted f ip es (init rate burst) * 1000 ≤ burst * 1000 + (last - from) * rate
unfolding init lookup
admitted-le f ip rate burst from last es h t =
    admitted-left f ip from last es (init rate burst) h (tt, tt) t
