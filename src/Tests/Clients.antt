-- ===== src/Tests/Clients.antt =====
-- Examples for the clients, the tools and the router.
use repram.Common.{
  ◌≡◌, ◌↔◌, refl, false, Option, none, some, [], Str, js, str_discrete, starts_with,
}
use repram.Common.JsMap.{lookup, insert}
use repram.Storage
use repram.Cluster.{ClusterNode}
use repram.Server.Puts.{TtlBounds, get_handler}
use repram.Server.Keys.{sort}
use repram.Client.{
  Utf8, value, to_http, http_retrieve, http_exists, local_retrieve, local_exists, local_list_keys,
  local_store,
}
use repram.Client.Reads.{list_over_http, http_reads-local}
use repram.RateLimit
use repram.RateLimit.{allow, bucket_of, refill, tokens_to_add, take_token}
use repram.Screening.{
  Text, Request, SecurityMiddleware, check, get_client_ip, is_scanner_request, contains_some,
  contains,
}
use repram.Server.Router.{HttpRequest, handle_request, thrown}
use repram.Server.Router.Outcomes.{Unreadable, handle_request-thrown}
use repram.Tests.{node_of, exact_floats}
use repram.Tests.Numbers.{parse_digits, parse_digits-decimal}

abbrev plain_utf8 : Utf8
plain_utf8 = record { encode = λ s. s; decode = λ b. b; decode_response = λ b. b }

abbrev free_node : ClusterNode
free_node = node_of 0 none

abbrev holding_node : ClusterNode
holding_node = (local_store plain_utf8 (λ i. 0) 9 7000 5 free_node (js "k") (js "v") 60).node

http_reads-local_example :
    (http_retrieve plain_utf8 parse_digits (to_http (get_handler 9000 holding_node (js "k")))
      ≡ value (local_retrieve plain_utf8 9000 holding_node (js "k")))
    × (http_exists parse_digits (to_http (get_handler 9000 holding_node (js "k")))
        ≡ value (local_exists 9000 holding_node (js "k")))
    × (list_over_http 9000 holding_node (some [])
        ≡ value (sort (local_list_keys 9000 holding_node (some []))))
http_reads-local_example =
    http_reads-local plain_utf8 parse_digits 9000 holding_node (js "k") (some [])
      parse_digits-decimal (λ e found. refl)

abbrev bounds : TtlBounds
bounds = record { min_ttl = 300; max_ttl = 86400 }

abbrev plain_text : Text
plain_text = record { to_lower_case = λ s. s; first_address = λ s. s }

abbrev quiet_request : Request
quiet_request = record {
  forwarded_for = none;
  real_ip = none;
  remote_address = some (js "1.2.3.4");
  content_length = some 0;
  user_agent = [];
}

abbrev open_middleware : SecurityMiddleware
open_middleware = record {
  rate_limiter = RateLimit.init 100 200;
  max_request_size = 10485760;
  trust_proxy = false;
}

-- A URL is its own path, and nothing that is coded can be decoded.
abbrev whole : Str → Option Str
whole s = some s

abbrev undecodable : Str → Option Str
undecodable s = none

abbrev bad_request : HttpRequest
bad_request = record { method = js "GET"; url = js "/v1/data/%"; screened = quiet_request }

handle_request-thrown_example :
    ((handle_request whole undecodable plain_text exact_floats 1000 open_middleware bad_request).1
      ≡ thrown)
    ↔ Unreadable whole undecodable (js "/v1/data/%")
unfolding check get_client_ip allow bucket_of refill tokens_to_add take_token is_scanner_request
    contains_some contains starts_with str_discrete lookup insert RateLimit.init
handle_request-thrown_example =
    handle_request-thrown whole undecodable plain_text exact_floats 1000 open_middleware bad_request
      (js "1.2.3.4") refl refl refl
