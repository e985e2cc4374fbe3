-- ===== src/Server/Router.antt =====
-- repram-mcp/src/node/server.ts: `handleRequest`, from the checks to the handler that a request
-- reaches. `new URL` and `decodeURIComponent` are parameters; each may throw.
use repram.Common.{
  ℕ, ◌≡◌, ◌≢◌, ◌↔◌, ◌⊎◌, inl, inr, refl, ap, ◌∙◌, Bool, true, false, ◌||◌, ◌&&◌, Option, none, some,
  List, [], ◌∷◌, ◌++◌, Str, ◌==◌, js, truthy, nat_eq, str_discrete, if◌then◌else◌, arith,
  Bool-cases, Option-cases, eq_iff,
}
use repram.RateLimit.{Floats}
use repram.Screening.{Text, Request, SecurityMiddleware, Checked, passed, rejected, check}
pub mod Outcomes

pub data Route : Type 0 where
  put_data get_data : Str → Route
  keys health status topology gossip_message bootstrap not_found : Route

-- How a request ends here: answered, rejected with a status, left without an answer, handed to a
-- handler, or thrown out of the listener of the server.
pub data Handled : Type 0 where
  preflight unanswered : Handled
  refused : ℕ → Handled
  routed : Route → Handled
  thrown : Handled

-- The rest of a string after a prefix.
unfoldable pub strip_prefix : Str → Str → Option Str
strip_prefix [] s = some s
strip_prefix (c ∷ p) [] = none
strip_prefix (c ∷ p) (d ∷ s) = if nat_eq c d then strip_prefix p s else none

abbrev pub non_empty : Option Str → Option Str
non_empty none = none
non_empty (some s) = if truthy s then some s else none

abbrev pub data_path : Str
data_path = js "/v1/data/"

-- `path.match(/^\/v1\/data\/(.+)$/)`, the group; a path of a URL has no line breaks.
unfoldable pub data_match : Str → Option Str
unfolding strip_prefix
data_match path = non_empty (strip_prefix data_path path)

-- The routes without a key.
unfoldable pub plain_route : Str → Str → Route
plain_route method path =
    if path == js "/v1/keys" && method == js "GET"
    then keys
    else if path == js "/v1/health" && method == js "GET"
    then health
    else if path == js "/v1/status" && method == js "GET"
    then status
    else if path == js "/v1/topology" && method == js "GET"
    then topology
    else if path == js "/v1/gossip/message" && method == js "POST"
    then gossip_message
    else if path == js "/v1/bootstrap" && method == js "POST"
    then bootstrap
    else not_found

unfoldable pub data_route : Str → Str → Str → Route
unfolding plain_route
data_route method path key =
    if method == js "PUT"
    then put_data key
    else if method == js "GET" || method == js "HEAD"
    then get_data key
    else plain_route method path

-- The key is decoded before the method is looked at; `none` where this throws.
unfoldable pub route : (Str → Option Str) → Str → Str → Option Route
unfolding data_route data_match
route decode_uri_component method path = elim (data_match path) [
  | none ↦ some (plain_route method path)
  | some raw ↦ elim (decode_uri_component raw) [
    | none ↦ none
    | some key ↦ some (data_route method path key)
  ]
]

-- The method, the URL of the request line, and what the checks read.
pub record HttpRequest : Type 0 where
  pub method : Str
  pub url : Str
  pub screened : Request

module _ (parse_url : Str → Option Str) (decode_uri_component : Str → Option Str) where
  -- After the checks.
  unfoldable pub dispatch : Str → Str → Handled
  unfolding route
  dispatch method url = elim (parse_url url) [
    | none ↦ thrown
    | some path ↦ elim (route decode_uri_component method path) [
      | none ↦ thrown
      | some r ↦ routed r
    ]
  ]

  unfoldable pub handle_request :
      Text → Floats → ℕ → SecurityMiddleware → HttpRequest → SecurityMiddleware × Handled
  unfolding dispatch
  handle_request text f now mw req =
      if req.method == js "OPTIONS"
      then (mw, preflight)
      else (let (mw', checked) = check text f now mw req.screened in
          elim checked [
            | rejected code ↦ (mw', refused code)
            | passed client_ip ↦
                (mw', if truthy client_ip then dispatch req.method req.url else unanswered)
          ])
