-- ===== src/Tests/Sockets.antt =====
-- Examples for WebSocket connections, their frames, and the PUTs that come in over them.
use repram.Common.{
  ℕ, ◌≡◌, ◌⊎◌, inr, refl, false, true, none, some, List, [], ◌∷◌, Str, js, truthy, arith,
  str_discrete, All,
}
use repram.Common.JsMap.{has}
use repram.Wire.{Message, put, WireMessage, message_to_wire}
use repram.Wire.RoundTrip.{received}
use repram.Auth.{sign_body}
use repram.Tree.{Tree, Hello, Connection, Alternative}
use repram.Tree.Attach.{Attempt, connected, welcomed, unreachable}
use repram.Cluster.{ClusterNode}
use repram.Cluster.Receive.{handle_relay_put}
use repram.WebSocket.{WebSocketConnection, init, start_heartbeat}
use repram.WebSocket.Heartbeat.{beats, answered, silence, pings, given_up, start_heartbeat-silence}
use repram.WebSocket.Closing.{
  Operation, send_text, tick, closing, perform, perform_all, perform_all-closed, IsSilent,
  send_frame,
}
use repram.WebSocket.Frames.{
  RawData, wire_message_type_to_attachment_type, buffer, raw_bytes, attachment, message, emitted,
  thrown, handle_raw_message, send_gossip_message, other, Emission, send_attachment_message,
  AttachmentMessage,
}
use repram.WebSocket.Frames.Channel.{gossip_frame, handle_raw_message-send_gossip_message}
use repram.WebSocket.Frames.Acceptance.{BreaksListener, IsSigned, handle_raw_message-thrown}
use repram.RateLimit
use repram.Server.Upgrade.{listened, from_child, on_socket_data}
use repram.Server.Upgrade.Relay.{on_socket_data-relays}
use repram.Server.Lifecycle.{HttpServer}
use repram.Tests.{beta, message_from, node_of, tree_of, plain_base64, plain_crypto}
use repram.Tests.Codec.{plain_json}

abbrev secret : Str
secret = js "s"

visible : (content : List ℕ) → truthy (sign_body plain_crypto secret content) ≡ true
unfolding sign_body
visible content = refl

-- Two pings, a pong, and five intervals without one.
start_heartbeat-silence_example :
    ((beats (start_heartbeat init) (answered (2 ∷ []) (silence 5 []))).1 ≡ pings 2 (given_up 5))
    × ((beats (start_heartbeat init) (answered (2 ∷ []) (silence 5 []))).0.heartbeat_timer ≡ false)
unfolding init
start_heartbeat-silence_example =
    start_heartbeat-silence (2 ∷ []) 5 init refl refl (omega arith, tt)

abbrev closed_connection : WebSocketConnection
closed_connection = record {
  heartbeat_timer = true;
  missed_pongs = 1;
  closed = true;
  remote_node_id = none;
  remote_enclave = none;
}

abbrev late_calls : List Operation
late_calls = send_text (1 ∷ []) ∷ tick ∷ closing 1000 [] ∷ []

abbrev live_connection : WebSocketConnection
live_connection = record closed_connection { closed = false }

perform_all-closed_example :
    ((perform live_connection (closing 1000 [])).0.closed ≡ true)
    × ((perform_all (perform live_connection (closing 1000 [])).0 late_calls).0.closed ≡ true)
    × All IsSilent (perform_all (perform live_connection (closing 1000 [])).0 late_calls).1
perform_all-closed_example = perform_all-closed live_connection (closing 1000 []) late_calls tt

abbrev sent_put : Message
sent_put = message_from beta put

abbrev open_connection : WebSocketConnection
open_connection = record closed_connection { closed = false }

-- The text of the frame of the PUT.
abbrev put_raw : RawData
put_raw =
    buffer (
      plain_json.stringify_frame
        (gossip_frame plain_json plain_crypto secret plain_base64 sent_put))

handle_raw_message-send_gossip_message_example :
    handle_raw_message plain_json plain_crypto secret plain_base64 put_raw
    ≡ emitted (
        attachment (gossip_frame plain_json plain_crypto secret plain_base64 sent_put)
        ∷ message (received sent_put)
        ∷ [])
unfolding send_gossip_message send_attachment_message send_frame raw_bytes
handle_raw_message-send_gossip_message_example =
    handle_raw_message-send_gossip_message plain_json plain_crypto secret plain_base64
      open_connection sent_put put_raw visible refl refl

-- The PUT with the number 1 in the place of its signature.
abbrev broken_frame : AttachmentMessage WireMessage
broken_frame = record (gossip_frame plain_json plain_crypto secret plain_base64 sent_put) {
  signature = some (other true none);
}

abbrev broken_raw : RawData
broken_raw = buffer (plain_json.stringify_frame broken_frame)

handle_raw_message-thrown_example :
    ((es : List (Emission WireMessage))
      → handle_raw_message plain_json plain_crypto secret plain_base64 broken_raw ≡ thrown es
      → BreaksListener plain_json plain_crypto secret (plain_json.parse (raw_bytes broken_raw))
        ⊎ IsSigned plain_json plain_crypto secret (plain_json.parse (raw_bytes broken_raw)))
    × (BreaksListener plain_json plain_crypto secret (plain_json.parse (raw_bytes broken_raw))
        → handle_raw_message plain_json plain_crypto secret plain_base64 broken_raw ≡ thrown [])
handle_raw_message-thrown_example =
    handle_raw_message-thrown plain_json plain_crypto secret plain_base64 broken_raw refl

-- It does break the listener.
broken_raw_throws :
    handle_raw_message plain_json plain_crypto secret plain_base64 broken_raw ≡ thrown []
unfolding raw_bytes wire_message_type_to_attachment_type message_to_wire plain_json
broken_raw_throws =
    let (_, breaks) =
      handle_raw_message-thrown plain_json plain_crypto secret plain_base64 broken_raw refl in
    breaks (
      inr (
        broken_frame,
        plain_json.parse-stringify_frame broken_frame,
        (js "put", message_to_wire plain_base64 sent_put, refl, refl, refl, refl),
      ))

-- A parent with one child, on connection 1.
abbrev child_conns : ℕ → Connection
child_conns conn = record { remote_node_id = some beta.id; remote_enclave = none; closed = false }

abbrev parent_tree : Tree
parent_tree = record (tree_of 3) { conns = child_conns; children = (beta.id, 1) ∷ [] }

abbrev parent_node : ClusterNode
parent_node = node_of 0 (some parent_tree)

abbrev no_hello : WireMessage → Hello
no_hello wire = record { node_id = wire.from; enclave = [] }

on_socket_data-relays_example :
    on_socket_data no_hello
      (λ i. 0)
      9
      8000
      1
      plain_json
      plain_crypto
      secret
      plain_base64
      parent_node
      1
      put_raw
    ≡ listened (handle_relay_put (λ i. 0) 9 8000 1 parent_node (received sent_put) 1)
unfolding send_gossip_message send_attachment_message send_frame raw_bytes from_child has
    str_discrete
on_socket_data-relays_example =
    on_socket_data-relays plain_json plain_crypto secret plain_base64 no_hello (λ i. 0) 9 8000 1
      parent_node 1 open_connection sent_put put_raw visible refl refl refl refl

abbrev stopping : HttpServer
stopping = record {
  node = parent_node;
  security = record {
    rate_limiter = RateLimit.init 10 20;
    max_request_size = 1000;
    trust_proxy = false;
  };
  ws_connections = 1 ∷ [];
}

abbrev other_parent : Alternative
other_parent = record { id = js "p"; address = js "host"; http_port = 8080; enclave = [] }

abbrev first_answer : Alternative → Attempt
first_answer alt = connected 7 (welcomed (js "p"))

abbrev second_answer : Alternative → Attempt
second_answer alt = unreachable

abbrev parents : List Alternative
parents = other_parent ∷ []
