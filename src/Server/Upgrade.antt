-- ===== src/Server/Upgrade.antt =====
-- repram-mcp/src/node/server.ts and index.ts: what a node does with the frames of a WebSocket, those of
-- a child and those of the parent. The connection is known by its number in the tree.
use repram.Common.{
  ℕ, ◌≡◌, refl, ◌∙◌, ap, Bool, true, false, ◌&&◌, ◌||◌, Option, none, some, List, [], ◌∷◌, ◌++◌,
  Str, ◌==◌, js, truthy, str_discrete, if◌then◌else◌, arith,
}
use repram.Common.JsMap.{has}
use repram.Wire.{Message, MessageType, put, Base64, message_to_wire}
use repram.Wire.RoundTrip.{received}
use repram.Auth.{Crypto, sign_body}
use repram.Gossip.{get_peers}
use repram.Tree.{Tree, Hello, Attachment, handle_hello}
use repram.Cluster.{ClusterNode, Effect, Outcome}
use repram.Cluster.Receive.{receive, handle_relay_put}
use repram.WebSocket.{WebSocketConnection, sent}
use repram.WebSocket.Frames.{
  AttachmentMessage, Json, RawData, Emission, attachment, message, Received, ignored, thrown,
  emitted, raw_bytes, send_gossip_message, handle_raw_message, type_name,
  wire_message_type_to_attachment_type,
}
use repram.WebSocket.Frames.Channel.{gossip_frame, handle_raw_message-send_gossip_message}
pub mod Relay

-- What the listeners of a connection leave: the node, its effects, the attachment messages that are
-- sent on the connection, and whether one of them threw.
pub record Listened : Type 0 where
  pub node : ClusterNode
  pub effects : List Effect
  pub replies : List Attachment
  pub threw : Bool

abbrev pub is_put : MessageType → Bool
is_put put = true
is_put _ = false

-- `conn.remoteNodeId && children.has(conn.remoteNodeId)`
unfoldable pub from_child : Option Tree → ℕ → Bool
from_child none conn = false
from_child (some t) conn = elim (t.conns conn).remote_node_id [
  | none ↦ false
  | some id ↦ truthy id && has id t.children
]

abbrev pub listened : Outcome → Listened
listened o = record { node = o.node; effects = o.effects; replies = []; threw = o.threw }

module _ (draw : ℕ → ℕ) (max_seen now timer : ℕ) where
  -- The listener of an accepted connection for "message".
  unfoldable pub on_child_message : ClusterNode → ℕ → Message → Outcome
  unfolding from_child
  on_child_message n conn msg =
      if is_put msg.type && from_child n.tree conn
      then handle_relay_put draw max_seen now timer n msg conn
      else receive draw max_seen now n msg

  -- The listener for "attachment"; the tree answers a hello.
  unfoldable pub on_child_attachment : ClusterNode → ℕ → Str → Hello → Listened
  on_child_attachment n conn type greeting =
      let unchanged : Listened = record { node = n; effects = []; replies = []; threw = false } in
      if type == js "hello"
      then elim n.tree [
        | none ↦ unchanged
        | some t ↦
            let g = handle_hello t (n.gossip).local_node (get_peers n.gossip) conn greeting in
            record {
              node = record n { tree = some g.tree };
              effects = [];
              replies = g.reply ∷ [];
              threw = false;
            }
      ]
      else unchanged

  -- `setupParentRouting`: the listener of the parent's connection.
  unfoldable pub on_parent_message : ClusterNode → Message → Outcome
  on_parent_message n msg = receive draw max_seen now n msg

module _ {Value : Type 0} (as_hello : Value → Hello) (draw : ℕ → ℕ) (max_seen now timer : ℕ) where
  -- The payload of a frame as that of a hello; a frame that is emitted has a type and a payload.
  abbrev frame_attachment : ClusterNode → ℕ → AttachmentMessage Value → Listened
  frame_attachment n conn frame = elim frame.type [
    | none ↦ record { node = n; effects = []; replies = []; threw = false }
    | some type ↦ elim frame.payload [
      | none ↦ record { node = n; effects = []; replies = []; threw = false }
      | some payload ↦ on_child_attachment draw max_seen now timer n conn type (as_hello payload)
    ]
  ]

  unfoldable pub on_emission : ClusterNode → ℕ → Emission Value → Listened
  unfolding on_child_message on_child_attachment
  on_emission n conn (attachment frame) = frame_attachment n conn frame
  on_emission n conn (message msg) = listened (on_child_message draw max_seen now timer n conn msg)

  -- The emitted events in their order; an exception ends them.
  unfoldable pub on_emissions : ClusterNode → ℕ → List (Emission Value) → Listened
  unfolding on_emission
  on_emissions n conn [] = record { node = n; effects = []; replies = []; threw = false }
  on_emissions n conn (e ∷ es) =
      let first = on_emission n conn e in
      let rest = on_emissions first.node conn es in
      if first.threw then first else record {
        node = rest.node;
        effects = first.effects ++ rest.effects;
        replies = first.replies ++ rest.replies;
        threw = rest.threw;
      }

  -- A text that comes in on an accepted connection.
  unfoldable pub on_socket_data :
      Json Value → Crypto → Str → Base64 → ClusterNode → ℕ → RawData → Listened
  unfolding on_emissions
  on_socket_data json crypto cluster_secret b64 n conn raw =
      elim (handle_raw_message json crypto cluster_secret b64 raw) [
        | ignored warning ↦ record { node = n; effects = []; replies = []; threw = false }
        | thrown es ↦ record (on_emissions n conn es) { threw = true }
        | emitted es ↦ on_emissions n conn es
      ]
