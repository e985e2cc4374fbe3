-- ===== src/Tests/Replicas.antt =====
-- Examples for a write in a network, of a node in the mesh and of one that is attached to a parent.
use repram.Common.{
  Bool, inl, inr, ◌==◌, if◌then◌else◌, ◌≡◌, refl, none, some, List, [], ◌∷◌, map, js, arith,
  str_discrete, All, ℕ, truthy, true, decimal,
}
use repram.Common.JsMap.{lookup, has, insert}
use repram.Wire.{NodeInfo}
use repram.Storage
use repram.Storage.{MemoryStore, ok}
use repram.Gossip.{get_replication_peers, message_id_of}
use repram.Cluster.{
  ClusterNode, Effect, conn_send, settle, created, write, put_message, quorum_size, open_route,
  handle_ack_message,
}
use repram.Tree.{Tree, get_ack_route, on_ack_route_timer}
use repram.Wire.{Message, ack, message_to_wire}
use repram.Wire.RoundTrip.{received}
use repram.Network.Relayed.{write-relayed}
use repram.Cluster.Writes.{acknowledge}
use repram.Cluster.Receive.{handle_put_message, handle_relay_put, ack_message, find_peer}
use repram.Auth.{sign_body}
use repram.Transport.{Request, request_for}
use repram.Server.{ended, concat, read_body}
use repram.Server.Peers.{gossip_handler}
use repram.Network.Post.{taken_by, gossip_handler-send}
use repram.Tests.Codec.{wire_text, read_wire, read_wire-wire_text}
use repram.Network.{replies}
use repram.Network.Replies.{Accepts, Responds}
use repram.Network.Replication.{HasNoParent, write-replicates}
use repram.Tests.{
  plain_base64, plain_crypto, message_from, alpha, alpha_gossip, beta, node_at, beta_gossip,
  store_of, node_of, tree_of,
}

abbrev writer : ClusterNode
writer = node_of 0 none

abbrev gamma : NodeInfo
gamma = node_at (js "c")

-- The writer knows b, and c, which has no room for a byte.
abbrev crowd : ClusterNode
crowd = record writer {
  gossip = record alpha_gossip { peers = (beta.id, beta) ∷ (gamma.id, gamma) ∷ [] };
}

abbrev peer_node : NodeInfo → ClusterNode
peer_node p = record (node_of (if p.id == beta.id then 0 else 1) none) { gossip = beta_gossip }

abbrev is_beta : NodeInfo → Bool
is_beta p = p.id == beta.id

abbrev pair_bytes : List ℕ
pair_bytes = 1 ∷ 2 ∷ []

abbrev held_at : ℕ → MemoryStore
held_at now = record (store_of 0) {
  entries = (js "k", Storage.new_entry now pair_bytes 60) ∷ [];
  current_bytes = 2;
}

crowd_put-Accepts : Accepts 7500 (put_message 7000 crowd (js "k") pair_bytes 60) (peer_node beta)
unfolding Storage.put find_peer str_discrete has insert lookup
crowd_put-Accepts = record {
  new = refl;
  fits = (held_at 7500, refl);
  knows = (alpha, refl);
  linked = refl;
}

crowd_put-Responds :
    All
      (λ p. Responds 7500 (put_message 7000 crowd (js "k") pair_bytes 60) (is_beta p) (peer_node p))
      (beta ∷ gamma ∷ [])
unfolding Storage.put str_discrete has lookup
crowd_put-Responds = (inl (refl, crowd_put-Accepts), (inr (refl, (refl, refl)), tt))

crowd-HasNoParent : HasNoParent crowd
crowd-HasNoParent t h = ground (arith, h)

write-replicates_example :
    ((acknowledge (write (λ i. 0) 9 7000 5 crowd (js "k") pair_bytes 60).node (
        replies
          (λ i. 0)
          9
          7500
          peer_node
          (write (λ i. 0) 9 7000 5 crowd (js "k") pair_bytes 60).effects)).1
      ≡ settle 5 created ∷ [])
    × All
        (λ p.
          Storage.get 67000
            (handle_put_message
              (λ i. 0)
              9
              7500
              (peer_node p)
              (put_message 7000 crowd (js "k") pair_bytes 60)).node.store
            (js "k")
          ≡ some pair_bytes)
        (beta ∷ [])
unfolding quorum_size get_replication_peers Storage.put str_discrete insert lookup open_route
write-replicates_example =
    write-replicates (λ i. 0) 9 7000 7500 67000 5 crowd peer_node is_beta (js "k") pair_bytes 60
      (held_at 7000) crowd-HasNoParent refl (omega arith) (omega arith) refl refl crowd_put-Responds
      (omega arith)

abbrev written : MemoryStore
written = record (store_of 0) {
  entries =
      (
        js "k",
        record { data_bytes = 1 ∷ []; created_at = 7000; ttl_seconds = 60; expires_at = 67000 },
      )
      ∷ [];
  current_bytes = 1;
}

abbrev taken : MemoryStore
taken = record (store_of 0) {
  entries =
      (
        js "k",
        record { data_bytes = 1 ∷ []; created_at = 7500; ttl_seconds = 60; expires_at = 67500 },
      )
      ∷ [];
  current_bytes = 1;
}

-- The writer attached to a parent by its connection 4, which is connection 12 there.
abbrev child_tree : Tree
child_tree = record (tree_of 0) { parent = some 4 }

abbrev child : ClusterNode
child = node_of 0 (some child_tree)

abbrev parent : ClusterNode
parent = record (node_of 0 (some (tree_of 3))) { gossip = beta_gossip }

abbrev child_put : Message
child_put = put_message 7000 child (js "k") (1 ∷ []) 60

abbrev mesh_ack : Message
mesh_ack = record (message_from gamma ack) { message_id = child_put.message_id }

write-relayed_example :
    ((write (λ i. 0) 9 7000 5 child (js "k") (1 ∷ []) 60).effects ≡ conn_send 4 child_put ∷ [])
    × ((rest : List Effect) × ((handle_relay_put
            (λ i. 0)
            9
            7500
            1
            parent
            (received child_put)
            12).effects
          ≡ conn_send 12 (ack_message 7500 parent (received child_put)) ∷ rest))
    × All
        (λ reply.
          handle_ack_message
            (handle_relay_put (λ i. 0) 9 7500 1 parent (received child_put) 12).node
            reply
          ≡ (
            (handle_relay_put (λ i. 0) 9 7500 1 parent (received child_put) 12).node,
            conn_send 12 reply ∷ [],
          ))
        (mesh_ack ∷ [])
    × ((acknowledge
          (write (λ i. 0) 9 7000 5 child (js "k") (1 ∷ []) 60).node
          (map received (ack_message 7500 parent (received child_put) ∷ mesh_ack ∷ []))).1
        ≡ settle 5 created ∷ [])
    × (Storage.get 67000
          (handle_relay_put (λ i. 0) 9 7500 1 parent (received child_put) 12).node.store
          (js "k")
        ≡ some (1 ∷ []))
    × ((t : Tree)
        → (handle_relay_put (λ i. 0) 9 7500 1 parent (received child_put) 12).node.tree ≡ some t
        → open_route (some (on_ack_route_timer t child_put.message_id)) child_put.message_id ≡ none)
unfolding quorum_size get_replication_peers Storage.put str_discrete insert lookup has open_route
    get_ack_route
write-relayed_example =
    write-relayed (λ i. 0) 9 7000 7500 1 67000 5 child parent child_tree (tree_of 3) 4 12 (js "k")
      (1 ∷ []) 60 written taken (mesh_ack ∷ []) refl refl refl (omega arith) refl refl refl refl
      refl refl (refl, tt) (omega arith) (omega arith)

visible : (content : List ℕ) → truthy (sign_body plain_crypto (js "s") content) ≡ true
unfolding sign_body
visible content = refl

-- The PUT of the writer as it goes to b over HTTP, in one chunk.
abbrev posted : Request
posted = request_for plain_base64 plain_crypto wire_text (js "s") beta child_put

gossip_handler-send_example :
    map
      (λ content.
        gossip_handler plain_crypto plain_base64
          (λ i. 0)
          9
          7500
          (js "s")
          read_wire
          (peer_node beta)
          content
          posted.signature)
      (read_body 1000 (posted.body ∷ []) ended)
    ≡ taken_by plain_base64 plain_crypto wire_text read_wire
        (js "s")
        (λ i. 0)
        9
        7500
        (peer_node beta)
        (received child_put)
      ∷ []
unfolding concat request_for wire_text message_to_wire decimal message_id_of
gossip_handler-send_example =
    gossip_handler-send plain_base64 plain_crypto wire_text read_wire (js "s") (λ i. 0) 9 7500 1000
      beta child_put (peer_node beta) (posted.body ∷ []) read_wire-wire_text visible refl
      (omega arith)
