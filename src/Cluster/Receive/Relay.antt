-- ===== src/Cluster/Receive/Relay.antt =====
-- repram-mcp/src/node/cluster.ts: a PUT relayed for an attached child, and the way back of its ACKs.
use repram.Common.{ℕ, ◌≡◌, ap, ◌∙◌, false, some, List, [], ◌∷◌, ◌++◌, Str, arith}
use repram.Common.JsMap.{lookup-insert_self}
use repram.Wire.{Message}
use repram.Storage
use repram.Storage.{MemoryStore, Result, ok, store_full}
use repram.Tree.{Tree, record_ack_route, get_ack_route}
use repram.Cluster.{
  ClusterNode, Effect, conn_send, broadcast_effects, handle_ack_message, open_route,
}
use repram.Cluster.Receive.{
  handle_relay_put, ack_message, children_effects, with_route, origin_effects,
}
use repram.Cluster.Receive.Puts.{is_seen, marked, mark-duplicate}

broadcast_effects-same :
    (draw : ℕ → ℕ) (max_seen now : ℕ) (n : ClusterNode) (msg : Message)
    → ((broadcast_effects draw max_seen now n msg).0.tree ≡ n.tree)
      × ((broadcast_effects draw max_seen now n msg).0.store ≡ n.store)
      × ((broadcast_effects draw max_seen now n msg).0.pending_writes ≡ n.pending_writes)
unfolding broadcast_effects
broadcast_effects-same draw max_seen now n msg = ground arith

abbrev mesh_message : ClusterNode → Message → Message
mesh_message n msg = record msg { from = (n.gossip).local_node.id }

abbrev routed : ℕ → ℕ → ℕ → ClusterNode → Message → ℕ → MemoryStore → ClusterNode
routed max_seen now timer n msg origin s = record (marked max_seen now n msg) {
  store = s;
  tree = with_route n.tree msg.message_id origin timer;
}

handle_relay_stored :
    (draw : ℕ → ℕ) (max_seen now timer : ℕ) (n : ClusterNode) (msg : Message) (origin : ℕ)
    (s : MemoryStore)
    → is_seen n msg.message_id ≡ false
    → Storage.put now n.store msg.key msg.payload msg.ttl ≡ ok s
    → handle_relay_put draw max_seen now timer n msg origin ≡ (
        let r =
          broadcast_effects draw max_seen now
            (routed max_seen now timer n msg origin s)
            (mesh_message n msg) in
        record {
          node = r.0;
          effects =
              origin_effects n.tree origin (ack_message now n msg)
              ++ (r.1 ++ children_effects r.0 (some msg.from) msg);
          threw = false;
        })
unfolding handle_relay_put
handle_relay_stored draw max_seen now timer n msg origin s new stored =
    rw (mark-duplicate max_seen now n.gossip msg.message_id, new, stored)

open_route-recorded :
    (t : Tree) (id : Str) (conn timer : ℕ)
    → (t.conns conn).closed ≡ false
    → open_route (some (record_ack_route t id conn timer)) id ≡ some conn
unfolding open_route get_ack_route record_ack_route
open_route-recorded t id conn timer h = ground (arith, lookup-insert_self id conn t.ack_routes, h)

ack-routed :
    (n : ClusterNode) (reply : Message) (id : Str) (conn : ℕ)
    → reply.message_id ≡ id
    → open_route n.tree id ≡ some conn
    → handle_ack_message n reply ≡ (n, conn_send conn reply ∷ [])
unfolding handle_ack_message
ack-routed n reply id conn e r = ground (arith, e, r)

-- A new PUT that an attached child sends over an open connection, and that fits: it is stored, the
-- child gets an ACK at once, and every later ACK for the message, from whatever mesh peer, goes to
-- the child over that connection, and leaves the node and its own writes alone.
pub handle_relay_put-routes :
    (draw : ℕ → ℕ) (max_seen now timer : ℕ) (n : ClusterNode) (t : Tree) (msg reply : Message)
    (origin : ℕ) (s : MemoryStore)
    → is_seen n msg.message_id ≡ false
    → Storage.put now n.store msg.key msg.payload msg.ttl ≡ ok s
    → n.tree ≡ some t
    → (t.conns origin).closed ≡ false
    → reply.message_id ≡ msg.message_id
    → let r = handle_relay_put draw max_seen now timer n msg origin in
      ((rest : List Effect) × (r.effects ≡ conn_send origin (ack_message now n msg) ∷ rest))
      × ((r.node).store ≡ s)
      × (handle_ack_message r.node reply ≡ (r.node, conn_send origin reply ∷ []))
handle_relay_put-routes draw max_seen now timer n t msg reply origin s new stored attached live
      same =
    let n' = routed max_seen now timer n msg origin s in
    let sent = broadcast_effects draw max_seen now n' (mesh_message n msg) in
    let kept = broadcast_effects-same draw max_seen now n' (mesh_message n msg) in
    let tree : sent.0.tree ≡ some (record_ack_route t msg.message_id origin timer) =
      kept.0 ∙ ap (λ o. with_route o msg.message_id origin timer) attached in
    let route : open_route sent.0.tree msg.message_id ≡ some origin =
      rw tree (open_route-recorded t msg.message_id origin timer live) in
    let rest = sent.1 ++ children_effects sent.0 (some msg.from) msg in
    let to_child : origin_effects n.tree origin (ack_message now n msg)
        ≡ conn_send origin (ack_message now n msg) ∷ [] =
      ground arith in
    rw (handle_relay_stored draw max_seen now timer n msg origin s new stored) (
      (rest, ap (λ l. l ++ rest) to_child),
      kept.1,
      ack-routed sent.0 reply msg.message_id origin same route,
    )
