-- ===== src/Screening/Spoofing.antt =====
-- repram-mcp/src/node/middleware.ts: the limit on a client that makes up its headers.
use repram.Common.{
  ℕ, ◌+◌, ◌-◌, ◌*◌, ◌≤◌, ◌≡◌, refl, ap, Bool, true, false, List, [], ◌∷◌, Str, ◌==◌, arith,
  if◌then◌else◌, Bool-cases, inl, inr,
}
use repram.RateLimit
use repram.RateLimit.{RateLimiter, Floats, allow, cleanup_stale}
use repram.RateLimit.Tokens.{cost}
use repram.RateLimit.Window.{request, admitted, Rising, admitted-le, step}
use repram.RateLimit.Window
use repram.Screening.{
  Request, SecurityMiddleware, Text, Checked, passed, rejected, check, get_client_ip, direct_ip,
}

pub data Arrival : Type 0 where
  arrives : Request → Arrival
  cleans : Arrival

abbrev passes : Checked → ℕ
passes (passed ip) = 1
passes (rejected status) = 0

passes-le :
    (allowed large scanner : Bool) (ip : Str)
    → passes (
        if allowed
        then if large then rejected 413 else if scanner then rejected 403 else passed ip
        else rejected 429)
      ≤ cost allowed
passes-le true true scanner ip = omega arith
passes-le true false true ip = omega arith
passes-le true false false ip = omega arith
passes-le false large scanner ip = omega arith

module _ (text : Text) (f : Floats) (ip : Str) where
  -- The middleware after an arrival, and 1 if it is a request that comes from `ip` and passes.
  unfoldable pub screen : ℕ → Arrival → SecurityMiddleware → SecurityMiddleware × ℕ
  screen now (arrives req) mw =
      let (mw', checked) = check text f now mw req in
      (mw', if direct_ip text req == ip then passes checked else 0)
  screen now cleans mw = (record mw { rate_limiter = cleanup_stale now mw.rate_limiter }, 0)

  unfoldable pub passed_from : List (ℕ × Arrival) → SecurityMiddleware → ℕ
  passed_from [] mw = 0
  passed_from ((now, a) ∷ xs) mw = let (mw', n) = screen now a mw in n + passed_from xs mw'

  -- What the rate limiter sees of an arrival.
  abbrev pub seen_event : Arrival → Window.Event
  seen_event (arrives req) = request (direct_ip text req)
  seen_event cleans = Window.cleanup

  abbrev pub seen_events : List (ℕ × Arrival) → List (ℕ × Window.Event)
  seen_events [] = []
  seen_events ((now, a) ∷ xs) = (now, seen_event a) ∷ seen_events xs

  get_client_ip-direct :
      (req : Request) (trust_proxy : Bool)
      → trust_proxy ≡ false
      → get_client_ip text req trust_proxy ≡ direct_ip text req
  unfolding get_client_ip
  get_client_ip-direct req trust_proxy h = rw h refl

  check-allow :
      (now : ℕ) (mw : SecurityMiddleware) (req : Request)
      → mw.trust_proxy ≡ false
      → let allowed = allow f now mw.rate_limiter (direct_ip text req) in
        ((check text f now mw req).0.rate_limiter ≡ allowed.0)
        × ((check text f now mw req).0.trust_proxy ≡ false)
        × (passes (check text f now mw req).1 ≤ cost allowed.1)
  unfolding check
  check-allow now mw req h =
      rw (get_client_ip-direct req mw.trust_proxy h) (refl, h, passes-le _ _ _ _)

  screen-step :
      (now : ℕ) (a : Arrival) (mw : SecurityMiddleware)
      → mw.trust_proxy ≡ false
      → ((screen now a mw).0.rate_limiter ≡ (step f ip now (seen_event a) mw.rate_limiter).0)
        × ((screen now a mw).0.trust_proxy ≡ false)
        × ((screen now a mw).1 ≤ (step f ip now (seen_event a) mw.rate_limiter).1)
  unfolding screen step
  screen-step now cleans mw h = (refl, h, omega arith)
  screen-step now (arrives req) mw h =
      let (limiter, direct, less) = check-allow now mw req h in
      elim (Bool-cases (direct_ip text req == ip)) [
        | inl own ↦ rw own (limiter, direct, less)
        | inr other ↦ rw other (limiter, direct, omega arith)
      ]

  passed_from-admitted :
      (xs : List (ℕ × Arrival)) (mw : SecurityMiddleware)
      → mw.trust_proxy ≡ false
      → passed_from xs mw ≤ admitted f ip (seen_events xs) mw.rate_limiter
  unfolding passed_from admitted
  passed_from-admitted [] mw h = omega arith
  passed_from-admitted ((now, a) ∷ xs) mw h =
      let (limiter, direct, less) = screen-step now a mw h in
      let rest = passed_from-admitted xs (screen now a mw).0 direct in
      let same = ap (admitted f ip (seen_events xs)) limiter in omega arith

-- A node that does not trust proxies lets through no more requests of one socket address than the
-- burst and what the rate allows, whatever the headers of the requests say: in any history of
-- requests and cleanups that starts with an empty limiter, at most burst + rate * seconds pass the
-- checks, provided that ten minutes refill a bucket.
pub passed_from-le :
    (text : Text) (f : Floats) (ip : Str) (rate burst max_request_size from last : ℕ)
    (xs : List (ℕ × Arrival))
    → burst ≤ 600 * rate
    → Rising f ip from (seen_events text f ip xs) last
    → passed_from text f ip xs (record {
      rate_limiter = RateLimit.init rate burst;
      max_request_size = max_request_size;
      trust_proxy = false;
    })
        * 1000
      ≤ burst * 1000 + (last - from) * rate
passed_from-le text f ip rate burst max_request_size from last xs h t =
    let mw : SecurityMiddleware = record {
      rate_limiter = RateLimit.init rate burst;
      max_request_size = max_request_size;
      trust_proxy = false;
    } in
    let fewer = passed_from-admitted text f ip xs mw refl in
    let bounded = admitted-le f ip rate burst from last (seen_events text f ip xs) h t in
    omega arith
