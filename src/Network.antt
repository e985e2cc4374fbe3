-- ===== src/Network.antt =====
-- Several nodes of repram-mcp/src/node: what the peers of a node answer to the messages it sends.
-- The node that runs at a peer is given by a function.
use repram.Common.{ℕ, Bool, true, false, List, [], ◌∷◌, ◌++◌, if◌then◌else◌}
use repram.Wire.{NodeInfo, Message, MessageType, ack}
use repram.Cluster.{ClusterNode, Effect, peer_send, conn_send, settle}
use repram.Cluster.Receive.{handle_put_message}
pub mod Replies
pub mod Replication
pub mod Relayed
pub mod Post

abbrev pub is_ack : MessageType → Bool
is_ack ack = true
is_ack _ = false

-- The ACKs among the messages that a node sends to peers.
unfoldable pub acks_of : List Effect → List Message
acks_of [] = []
acks_of (peer_send s ∷ es) = if is_ack s.message.type then s.message ∷ acks_of es else acks_of es
acks_of (conn_send conn msg ∷ es) = acks_of es
acks_of (settle caller status ∷ es) = acks_of es

-- Every PUT that a node sends to peers is handled by the peer's node, and its ACKs come back.
unfoldable pub replies : (ℕ → ℕ) → ℕ → ℕ → (NodeInfo → ClusterNode) → List Effect → List Message
unfolding acks_of
replies draw max_seen now nodes [] = []
replies draw max_seen now nodes (peer_send s ∷ es) =
    acks_of (handle_put_message draw max_seen now (nodes s.target) s.message).effects
    ++ replies draw max_seen now nodes es
replies draw max_seen now nodes (conn_send conn msg ∷ es) = replies draw max_seen now nodes es
replies draw max_seen now nodes (settle caller status ∷ es) = replies draw max_seen now nodes es
