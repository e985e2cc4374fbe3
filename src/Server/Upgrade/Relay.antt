-- ===== src/Server/Upgrade/Relay.antt =====
-- repram-mcp/src/node/ws-transport.ts, server.ts and cluster.ts: a PUT on its way from a child, over
-- its WebSocket, into the node it is attached to.
use repram.Common.{
  ℕ, ◌≡◌, refl, ◌∙◌, ap, true, false, List, [], ◌∷◌, append-nil, Str, ◌==◌, js, truthy,
  str_discrete, arith,
}
use repram.Wire.{Message, MessageType, put, Base64, message_to_wire}
use repram.Wire.RoundTrip.{received}
use repram.Auth.{Crypto, sign_body}
use repram.Tree.{Hello}
use repram.Cluster.{ClusterNode}
use repram.Cluster.Receive.{handle_relay_put}
use repram.WebSocket.{WebSocketConnection, sent}
use repram.WebSocket.Frames.{
  Json, RawData, attachment, message, raw_bytes, send_gossip_message, type_name,
  wire_message_type_to_attachment_type,
}
use repram.WebSocket.Frames.Channel.{gossip_frame, handle_raw_message-send_gossip_message}
use repram.Server.Upgrade.{
  listened, from_child, on_child_message, on_child_attachment, on_emission, on_emissions,
  on_socket_data,
}

gossip_type-not_hello :
    (t : MessageType) → type_name (wire_message_type_to_attachment_type t) == js "hello" ≡ false
unfolding wire_message_type_to_attachment_type str_discrete
gossip_type-not_hello MessageType.put = refl
gossip_type-not_hello MessageType.get = refl
gossip_type-not_hello MessageType.ping = refl
gossip_type-not_hello MessageType.pong = refl
gossip_type-not_hello MessageType.sync = refl
gossip_type-not_hello MessageType.ack = refl
gossip_type-not_hello (MessageType.other s) = refl

on_child_message-relay :
    (draw : ℕ → ℕ) (max_seen now timer : ℕ) (n : ClusterNode) (conn : ℕ) (msg : Message)
    → msg.type ≡ put
    → from_child n.tree conn ≡ true
    → on_child_message draw max_seen now timer n conn msg
      ≡ handle_relay_put draw max_seen now timer n msg conn
unfolding on_child_message
on_child_message-relay draw max_seen now timer n conn msg is_a_put attached =
    ground (arith, is_a_put, attached)

module _ {Value : Type 0} (json : Json Value) (crypto : Crypto) (cluster_secret : Str)
    (b64 : Base64) (as_hello : Value → Hello) (draw : ℕ → ℕ) (max_seen now timer : ℕ) where
  frame-unchanged :
      (n : ClusterNode) (conn : ℕ) (msg : Message)
      → on_emission as_hello draw max_seen now timer n conn
          (attachment (gossip_frame json crypto cluster_secret b64 msg))
        ≡ record { node = n; effects = []; replies = []; threw = false }
  unfolding on_emission on_child_attachment
  frame-unchanged n conn msg = rw (gossip_type-not_hello (message_to_wire b64 msg).type) refl

  message-alone :
      (n : ClusterNode) (conn : ℕ) (msg : Message)
      → on_emissions as_hello draw max_seen now timer n conn (message msg ∷ [])
        ≡ listened (on_child_message draw max_seen now timer n conn msg)
  unfolding on_emissions on_emission
  message-alone n conn msg =
      let o = on_child_message draw max_seen now timer n conn msg in
      ground (arith, append-nil o.effects)

  emissions-gossip :
      (n : ClusterNode) (conn : ℕ) (msg arrived : Message)
      → on_emissions as_hello draw max_seen now timer n conn
          (attachment (gossip_frame json crypto cluster_secret b64 msg) ∷ message arrived ∷ [])
        ≡ listened (on_child_message draw max_seen now timer n conn arrived)
  unfolding on_emissions
  emissions-gossip n conn msg arrived =
      rw (frame-unchanged n conn msg) (message-alone n conn arrived)

-- A PUT that an attached child sends over its open connection, with the same secret as its parent and
-- in whatever fragments, is relayed by the parent: it does what `handleRelayPut` does with the PUT,
-- the clock of which is cut to whole seconds, and nothing else. Signatures are not empty.
pub on_socket_data-relays :
    {Value : Type 0} (json : Json Value) (crypto : Crypto) (cluster_secret : Str) (b64 : Base64)
    (as_hello : Value → Hello) (draw : ℕ → ℕ) (max_seen now timer : ℕ) (n : ClusterNode) (conn : ℕ)
    (child : WebSocketConnection) (msg : Message) (raw : RawData)
    → ((content : List ℕ) → truthy (sign_body crypto cluster_secret content) ≡ true)
    → child.closed ≡ false
    → send_gossip_message json crypto cluster_secret b64 child msg ≡ sent (raw_bytes raw) ∷ []
    → msg.type ≡ put
    → from_child n.tree conn ≡ true
    → on_socket_data as_hello draw max_seen now timer json crypto cluster_secret b64 n conn raw
      ≡ listened (handle_relay_put draw max_seen now timer n (received msg) conn)
unfolding on_socket_data
on_socket_data-relays json crypto cluster_secret b64 as_hello draw max_seen now timer n conn child
      msg raw visible alive h is_a_put attached =
    let arrived =
      handle_raw_message-send_gossip_message json crypto cluster_secret b64 child msg raw visible
        alive h in
    rw (arrived, on_socket_data)
      (emissions-gossip json crypto cluster_secret b64 as_hello draw max_seen now timer n conn msg
          (received msg)
        ∙ ap listened (
            on_child_message-relay draw max_seen now timer n conn (received msg) is_a_put attached))
