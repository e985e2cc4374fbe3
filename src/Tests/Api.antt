-- ===== src/Tests/Api.antt =====
-- Examples for the HTTP handlers, the signatures and the rate limiter.
use repram.Common.{
  ℕ, ◌+◌, ◌-◌, ◌*◌, ◌≤◌, ◌≡◌, ◌≢◌, refl, false, Option, none, some, List, [], ◌∷◌, ◌++◌, Str, js,
  arith, str_discrete, includes,
}
use repram.Wire.{WireMessage}
use repram.Storage
use repram.Storage.{Buffer}
use repram.RateLimit
use repram.RateLimit.{Floats}
use repram.RateLimit.Window.{Event, request, admitted, admitted-le}
use repram.Cluster.{ClusterNode}
use repram.Server.{body, too_large, ended, read_body, concat}
use repram.Server.Body.{read_body_lem}
use repram.Server.Keys.{sort}
use repram.Server.Keys.Walk.{walk, walk-sort}
use repram.Server.Puts.{TtlBounds, put_handler}
use repram.Server.Peers.{
  Served, BootstrapRequest, gossip_handler, bootstrap_handler, join, refuse, handlers-unsigned,
}
use repram.Screening
use repram.Screening.{Text}
use repram.Screening.Spoofing.{Arrival, arrives, passed_from, passed_from-le}
use repram.Tests.{node_of, plain_base64, plain_crypto, exact_floats, parse_ninety}

abbrev free_node : ClusterNode
free_node = node_of 0 none

abbrev minute_bounds : TtlBounds
minute_bounds = record { min_ttl = 60; max_ttl = 80 }

abbrev written : ClusterNode
written =
    (put_handler (λ i. 0) 9 7000 5 minute_bounds parse_ninety free_node (js "k") (body (1 ∷ []))
      (some (js "90")) none).node

read_body_example : read_body 3 ((1 ∷ 2 ∷ []) ∷ (3 ∷ 4 ∷ []) ∷ []) ended ≡ too_large ∷ []
unfolding concat
read_body_example = read_body_lem 3 ((1 ∷ 2 ∷ []) ∷ (3 ∷ 4 ∷ []) ∷ []) ended

abbrev scanned : List Str
scanned = js "b" ∷ js "c" ∷ js "a" ∷ []

walk-sort_example : walk 4 scanned none 2 ≡ some (sort scanned)
unfolding includes str_discrete
walk-sort_example =
    walk-sort scanned 2 (refl, (refl, (refl, tt))) (refl, (refl, (refl, tt))) (omega arith)

abbrev parse_nothing : Buffer → Option WireMessage
parse_nothing content = none

abbrev own_request : BootstrapRequest
own_request = record {
  node_id = js "a";
  address = js "host";
  gossip_port = 9090;
  http_port = 8080;
  enclave = none;
}

abbrev new_request : BootstrapRequest
new_request = record own_request { node_id = js "c" }

abbrev parse_own : Buffer → Option BootstrapRequest
parse_own content = some own_request

forged : js "t" ≢ js "s" ++ 1 ∷ []
forged e = ground (arith, e)

handlers-unsigned_example :
    (gossip_handler plain_crypto plain_base64
        (λ i. 0)
        9
        7000
        (js "s")
        parse_nothing
        free_node
        (body (1 ∷ []))
        (some (js "t"))
      ≡ refuse free_node 403)
    × (gossip_handler plain_crypto plain_base64
          (λ i. 0)
          9
          7000
          (js "s")
          parse_nothing
          free_node
          (body (1 ∷ []))
          none
        ≡ refuse free_node 403)
    × (bootstrap_handler plain_crypto plain_base64
          (λ i. 0)
          9
          7000
          (js "s")
          parse_own
          free_node
          (body (1 ∷ []))
          (some (js "t"))
        ≡ refuse free_node 403)
    × (bootstrap_handler plain_crypto plain_base64
          (λ i. 0)
          9
          7000
          (js "s")
          parse_own
          free_node
          (body (1 ∷ []))
          none
        ≡ refuse free_node 403)
handlers-unsigned_example =
    handlers-unsigned plain_crypto plain_base64 (λ i. 0) 9 7000 (js "s") parse_nothing parse_own
      free_node (1 ∷ []) (js "t") refl forged

abbrev joined : Served
joined = join plain_crypto plain_base64 (λ i. 0) 9 7000 [] free_node new_request

c_ne_a : js "c" ≢ js "a"
c_ne_a e = ground (arith, e)

abbrev requests : List (ℕ × Event)
requests = (0, request (js "x")) ∷ (10, request (js "y")) ∷ (500, request (js "x")) ∷ []

admitted-le_example :
    admitted exact_floats (js "x") requests (RateLimit.init 10 20) * 1000
    ≤ 20 * 1000 + (1000 - 0) * 10
admitted-le_example =
    admitted-le exact_floats (js "x") 10 20 0 1000 requests (omega arith)
      (omega arith, (omega arith, (omega arith, omega arith)))

abbrev plain_text : Text
plain_text = record { to_lower_case = λ s. s; first_address = λ s. s }

-- A client at x that claims to be y.
abbrev spoofed : Screening.Request
spoofed = record {
  forwarded_for = some (js "y");
  real_ip = none;
  remote_address = some (js "x");
  content_length = none;
  user_agent = js "curl";
}

abbrev arrivals : List (ℕ × Arrival)
arrivals = (0, arrives spoofed) ∷ (10, arrives spoofed) ∷ []

passed_from-le_example :
    passed_from plain_text exact_floats (js "x") arrivals (record {
      rate_limiter = RateLimit.init 10 20;
      max_request_size = 1000;
      trust_proxy = false;
    })
      * 1000
    ≤ 20 * 1000 + (1000 - 0) * 10
passed_from-le_example =
    passed_from-le plain_text exact_floats (js "x") 10 20 1000 0 1000 arrivals (omega arith)
      (omega arith, (omega arith, omega arith))
