-- ===== src/Cluster/Receive.antt =====
-- repram-mcp/src/node/cluster.ts: the handlers of the messages that reach the node, from the mesh
-- through the gossip layer and from an attached child.
use repram.Common.{
  ℕ, Bool, true, false, not, ◌&&◌, Option, none, some, List, [], ◌∷◌, ◌++◌, Str, ◌==◌,
  if◌then◌else◌, map,
}
use repram.Common.JsMap.{JsMap, values}
use repram.Wire.{NodeInfo, Message, MessageType, put, ack}
use repram.Storage
use repram.Storage.{ok, store_full}
use repram.Gossip.{Gossip, Send, Handled, get_peers, handle_message}
use repram.Gossip.Broadcast.{mark, forward_to_enclave, send}
use repram.Tree.{Tree, Connection, record_ack_route}
use repram.Cluster.{
  ClusterNode, Effect, peer_send, conn_send, Outcome, to_conn, broadcast_effects,
  handle_ack_message,
}
pub mod Puts
pub mod Full
pub mod Relay

-- The ACK of the node for a message.
abbrev pub ack_message : ℕ → ClusterNode → Message → Message
ack_message now n msg = record {
  type = ack;
  from = (n.gossip).local_node.id;
  to = msg.from;
  key = msg.key;
  payload = [];
  ttl = 0;
  timestamp = now;
  message_id = msg.message_id;
  node_info = none;
}

-- `peers.find((p) => p.id === id)`
unfoldable pub find_peer : Str → List NodeInfo → Option NodeInfo
find_peer id [] = none
find_peer id (p ∷ ps) = if p.id == id then some p else find_peer id ps

-- The sends of `gossip.send`, whose rejection is caught.
abbrev pub send_effects : Option (List Send) → List Effect
send_effects none = []
send_effects (some sends) = map peer_send sends

unfoldable pub ack_originator : ℕ → ClusterNode → Message → List Effect
unfolding find_peer
ack_originator now n msg = elim (find_peer msg.from (get_peers n.gossip)) [
  | none ↦ []
  | some originator ↦ send_effects (send n.gossip originator (ack_message now n msg))
]

-- `childConn.remoteEnclave === this.localNode.enclave`
abbrev pub in_enclave : Tree → Str → ℕ → Bool
in_enclave t enclave conn = elim ((t.conns conn).remote_enclave) [
  | none ↦ false
  | some e ↦ e == enclave
]

abbrev pub not_skipped : Option Str → Str → Bool
not_skipped none id = true
not_skipped (some skipped) id = not (id == skipped)

-- The loop over the children, `except` being the id that is passed over, if any.
unfoldable pub forward_to_children : Tree → Str → Option Str → Message → JsMap ℕ → List Effect
forward_to_children t enclave except msg [] = []
forward_to_children t enclave except msg ((child_id, conn) ∷ children) =
    (if not_skipped except child_id && in_enclave t enclave conn then to_conn t conn msg else [])
    ++ forward_to_children t enclave except msg children

abbrev pub children_effects : ClusterNode → Option Str → Message → List Effect
children_effects n except msg = elim n.tree [
  | none ↦ []
  | some t ↦ forward_to_children t (n.gossip).local_node.enclave except msg t.children
]

-- `markSeen` comes first, and the store may throw after it.
unfoldable pub handle_put_message : (ℕ → ℕ) → ℕ → ℕ → ClusterNode → Message → Outcome
unfolding ack_originator forward_to_children
handle_put_message draw max_seen now n msg =
    let (g, duplicate) = mark max_seen now n.gossip msg.message_id in
    let marked = record n { gossip = g } in
    if duplicate
    then record { node = marked; effects = []; threw = false }
    else elim (Storage.put now n.store msg.key msg.payload msg.ttl) [
      | store_full ↦ record { node = marked; effects = []; threw = true }
      | ok s ↦
          let stored = record marked { store = s } in
          record {
            node = stored;
            effects =
                ack_originator now stored msg
                ++ (map peer_send (forward_to_enclave draw g msg)
                    ++ children_effects stored none msg);
            threw = false;
          }
    ]

abbrev pub with_route : Option Tree → Str → ℕ → ℕ → Option Tree
with_route none message_id conn timer = none
with_route (some t) message_id conn timer = some (record_ack_route t message_id conn timer)

-- `originConn.sendGossipMessage(ack)`
abbrev pub origin_effects : Option Tree → ℕ → Message → List Effect
origin_effects none conn msg = conn_send conn msg ∷ []
origin_effects (some t) conn msg = to_conn t conn msg

-- A PUT from an attached child: `origin` is its connection, `timer` the timer that is started. In a
-- node without a tree the connection is taken to be open.
unfoldable pub handle_relay_put : (ℕ → ℕ) → ℕ → ℕ → ℕ → ClusterNode → Message → ℕ → Outcome
unfolding broadcast_effects forward_to_children
handle_relay_put draw max_seen now timer n msg origin =
    let (g, duplicate) = mark max_seen now n.gossip msg.message_id in
    let marked = record n { gossip = g } in
    if duplicate
    then record { node = marked; effects = []; threw = false }
    else elim (Storage.put now n.store msg.key msg.payload msg.ttl) [
      | store_full ↦ record { node = marked; effects = []; threw = true }
      | ok s ↦
          let routed = record marked {
            store = s;
            tree = with_route n.tree msg.message_id origin timer;
          } in
          let mesh_msg = record msg { from = (n.gossip).local_node.id } in
          let (node, sends) = broadcast_effects draw max_seen now routed mesh_msg in
          record {
            node = node;
            effects =
                origin_effects n.tree origin (ack_message now n msg)
                ++ (sends ++ children_effects node (some msg.from) msg);
            threw = false;
          }
    ]

unfoldable pub on_type : MessageType → (ℕ → ℕ) → ℕ → ℕ → ClusterNode → Message → Outcome
unfolding handle_put_message handle_ack_message
on_type put draw max_seen now n msg = handle_put_message draw max_seen now n msg
on_type ack draw max_seen now n msg =
    let (node, effects) = handle_ack_message n msg in
    record { node = node; effects = effects; threw = false }
on_type type draw max_seen now n msg = record { node = n; effects = []; threw = false }

-- `handleGossipMessage`: other types are only logged.
unfoldable pub handle_gossip_message : (ℕ → ℕ) → ℕ → ℕ → ClusterNode → Message → Outcome
unfolding on_type
handle_gossip_message draw max_seen now n msg = on_type msg.type draw max_seen now n msg

-- `gossip.handleMessage` with the node as its message handler.
unfoldable pub receive : (ℕ → ℕ) → ℕ → ℕ → ClusterNode → Message → Outcome
unfolding handle_gossip_message
receive draw max_seen now n msg =
    let handled = handle_message now n.gossip msg in
    let node = record n { gossip = handled.gossip } in
    elim handled.application [
      | none ↦ record { node = node; effects = map peer_send handled.sends; threw = false }
      | some application ↦ handle_gossip_message draw max_seen now node application
    ]
