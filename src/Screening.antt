-- ===== src/Screening.antt =====
-- repram-mcp/src/node/middleware.ts: the checks before a request is routed. `split(",")[0].trim()`,
-- `toLowerCase` and `parseInt` belong to JavaScript and are parameters; a header that comes more than
-- once is a list, of which the source takes the first.
use repram.Common.{
  ℕ, ◌+◌, ◌-◌, ◌*◌, ◌≤◌, ◌≡◌, Bool, true, false, Option, none, some, List, [], ◌∷◌, Str, js, truthy,
  starts_with, ltb, if◌then◌else◌,
}
use repram.RateLimit
use repram.RateLimit.{RateLimiter, Floats, allow}
use repram.Wire.{or_default}
pub mod Spoofing

-- The parts of a request that the checks read. `parseInt` of the content length is none for NaN.
pub record Request : Type 0 where
  pub forwarded_for : Option Str
  pub real_ip : Option Str
  pub remote_address : Option Str
  pub content_length : Option ℕ
  pub user_agent : Str

pub record SecurityMiddleware : Type 0 where
  pub rate_limiter : RateLimiter
  pub max_request_size : ℕ
  pub trust_proxy : Bool

pub record Text : Type 0 where
  pub to_lower_case : Str → Str
  -- The first of the addresses that commas separate, without blanks around it.
  pub first_address : Str → Str

-- `s.includes(part)`
unfoldable pub contains : Str → Str → Bool
contains part [] = starts_with part []
contains part (c ∷ s) = if starts_with part (c ∷ s) then true else contains part s

abbrev pub scanner_user_agents : List Str
scanner_user_agents =
    js "sqlmap" ∷ js "nikto" ∷ js "nmap" ∷ js "masscan" ∷ js "gobuster" ∷ js "dirbuster" ∷ []

unfoldable pub contains_some : Str → List Str → Bool
unfolding contains
contains_some s [] = false
contains_some s (part ∷ parts) = if contains part s then true else contains_some s parts

-- The address, or the status of the rejection that was sent.
pub data Checked : Type 0 where
  passed : Str → Checked
  rejected : ℕ → Checked

module _ (text : Text) where
  unfoldable pub is_scanner_request : Str → Bool
  unfolding contains_some
  is_scanner_request user_agent = contains_some (text.to_lower_case user_agent) scanner_user_agents

  abbrev pub direct_ip : Request → Str
  direct_ip req = or_default (js "unknown") req.remote_address

  abbrev pub real_ip_or_direct : Request → Option Str → Str
  real_ip_or_direct req none = direct_ip req
  real_ip_or_direct req (some xri) = if truthy xri then xri else direct_ip req

  abbrev pub proxied_ip : Request → Option Str → Str
  proxied_ip req none = real_ip_or_direct req req.real_ip
  proxied_ip req (some xff) =
      if truthy xff
      then if truthy (text.first_address xff)
        then text.first_address xff
        else real_ip_or_direct req req.real_ip
      else real_ip_or_direct req req.real_ip

  unfoldable pub get_client_ip : Request → Bool → Str
  get_client_ip req trust_proxy =
      if trust_proxy then proxied_ip req req.forwarded_for else direct_ip req

  -- A comparison with NaN is false.
  abbrev pub is_too_large : ℕ → Option ℕ → Bool
  is_too_large max_size none = false
  is_too_large max_size (some size) = ltb max_size size

  unfoldable pub check : Floats → ℕ → SecurityMiddleware → Request → SecurityMiddleware × Checked
  check f now mw req =
      let client_ip = get_client_ip req mw.trust_proxy in
      let (limiter, allowed) = allow f now mw.rate_limiter client_ip in
      (
        record mw { rate_limiter = limiter },
        if allowed
            then if is_too_large mw.max_request_size req.content_length
              then rejected 413
              else if is_scanner_request req.user_agent
              then rejected 403
              else passed client_ip
            else rejected 429,
      )
