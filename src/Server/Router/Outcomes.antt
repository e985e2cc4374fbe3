-- ===== src/Server/Router/Outcomes.antt =====
-- repram-mcp/src/node/server.ts: which requests reach a handler, and which throw.
use repram.Common.{
  ℕ, ◌≡◌, ◌↔◌, ◌⊎◌, inl, inr, refl, sym, ◌∙◌, true, false, ◌||◌, Option, none, some, ◌++◌, Str,
  ◌==◌, js, truthy, str_discrete, if◌then◌else◌, arith, Option-cases,
}
use repram.RateLimit.{Floats}
use repram.Screening.{Text, SecurityMiddleware, passed, check}
use repram.Server.Router.{
  put_data, get_data, not_found, thrown, HttpRequest, strip_prefix, data_path, data_match,
  plain_route, data_route, route, dispatch, handle_request,
}

module _ (parse_url : Str → Option Str) (decode_uri_component : Str → Option Str) where
  -- A URL that cannot be parsed, or the path of a key that cannot be decoded.
  abbrev pub Unreadable : Str → Type 0
  Unreadable url =
      (parse_url url ≡ none)
      ⊎ ((path : Str) × (raw : Str) × (parse_url url ≡ some path)
          × (data_match path ≡ some raw)
          × (decode_uri_component raw ≡ none))

  thrown-Unreadable :
      (method url : Str)
      → Unreadable url
      → dispatch parse_url decode_uri_component method url ≡ thrown
  unfolding dispatch route
  thrown-Unreadable method url (inl bad) = rw (bad, dispatch) refl
  thrown-Unreadable method url (inr (path, raw, good, found, bad)) =
      rw (good, dispatch, found, bad) refl

  Unreadable-thrown :
      (method url : Str)
      → dispatch parse_url decode_uri_component method url ≡ thrown
      → Unreadable url
  unfolding dispatch route
  Unreadable-thrown method url h = elim (Option-cases (parse_url url)) [
    | inl bad ↦ inl bad
    | inr (path, good) ↦ elim (Option-cases (data_match path)) [
      | inl plain ↦ absurd (ground (arith, h, good, plain))
      | inr (raw, found) ↦ elim (Option-cases (decode_uri_component raw)) [
        | inl bad ↦ inr (path, raw, good, found, bad)
        | inr (key, fine) ↦ absurd (ground (arith, h, good, found, fine))
      ]
    ]
  ]

-- A request from a known address that passes the checks throws out of the listener of the server
-- exactly when its URL cannot be parsed, or when it is the path of a key that cannot be decoded,
-- whatever its method.
pub handle_request-thrown :
    (parse_url : Str → Option Str) (decode_uri_component : Str → Option Str) (text : Text)
    (f : Floats) (now : ℕ) (mw : SecurityMiddleware) (req : HttpRequest) (client_ip : Str)
    → req.method == js "OPTIONS" ≡ false
    → (check text f now mw req.screened).1 ≡ passed client_ip
    → truthy client_ip ≡ true
    → ((handle_request parse_url decode_uri_component text f now mw req).1 ≡ thrown)
      ↔ Unreadable parse_url decode_uri_component req.url
unfolding handle_request
handle_request-thrown parse_url decode_uri_component text f now mw req client_ip other checked
      known =
    let reached : (handle_request parse_url decode_uri_component text f now mw req).1
        ≡ dispatch parse_url decode_uri_component req.method req.url =
      ground (arith, other, checked, known) in
    (
      λ h. Unreadable-thrown parse_url decode_uri_component req.method req.url (sym reached ∙ h),
      λ h. reached ∙ thrown-Unreadable parse_url decode_uri_component req.method req.url h,
    )

strip_data_path : (s : Str) → strip_prefix data_path (data_path ++ s) ≡ some s
unfolding strip_prefix
strip_data_path s = refl

plain_route-data : (method s : Str) → plain_route method (data_path ++ s) ≡ not_found
unfolding plain_route str_discrete
plain_route-data method s = refl

-- The path of a key, as `encodeURIComponent` makes it, reaches the handler of its method with the key
-- itself; with any other method than PUT, GET and HEAD it is not found.
pub route-encoded :
    (decode_uri_component : Str → Option Str) (method encoded key : Str)
    → truthy encoded ≡ true
    → decode_uri_component encoded ≡ some key
    → route decode_uri_component method (data_path ++ encoded)
      ≡ some (
          if method == js "PUT"
          then put_data key
          else if method == js "GET" || method == js "HEAD"
          then get_data key
          else not_found)
unfolding route data_route data_match
route-encoded decode_uri_component method encoded key some_text decoded =
    let matched : data_match (data_path ++ encoded) ≡ some encoded =
      rw (strip_data_path encoded, some_text) refl in
    rw (matched, route, decoded, plain_route-data method encoded) refl
