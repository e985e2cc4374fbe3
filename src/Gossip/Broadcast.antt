-- ===== src/Gossip/Broadcast.antt =====
-- repram-mcp/src/node/gossip.ts: to whom a message is sent and forwarded. A send that fails is
-- caught and does not change which sends follow, so the model lists the sends that are started.
use repram.Common.{
  ℕ, ◌-◌, Bool, true, false, ◌&&◌, Option, none, some, List, [], ◌∷◌, Str, leb, ltb, if◌then◌else◌,
  length, map,
}
use repram.Common.JsMap.{values, size}
use repram.Wire.{NodeInfo, Message, sync}
use repram.Fanout.{fanout_size, select_random_peers}
use repram.Seen.{mark_seen}
use repram.Gossip.{Gossip, Send, get_replication_peers, get_peers, protocol_message, count_message}
pub mod Reach

abbrev pub fanout_threshold : ℕ
fanout_threshold = 10

abbrev pub send_all : Message → List NodeInfo → List Send
send_all msg = map (λ peer. record { target = peer; message = msg })

-- `this.markSeen(messageId)`, with the cache as part of the state.
unfoldable pub mark : ℕ → ℕ → Gossip → Str → Gossip × Bool
mark max_seen now s message_id =
    let (seen, duplicate) = mark_seen max_seen now s.seen_messages message_id in
    (record s { seen_messages = seen }, duplicate)

-- The peers that a broadcast goes to.
unfoldable pub broadcast_targets : (ℕ → ℕ) → Gossip → List NodeInfo
broadcast_targets draw s =
    let peers = get_replication_peers s in
    if leb (length peers) fanout_threshold
    then peers
    else select_random_peers draw peers (fanout_size (length peers)) []

-- `none`: it throws, since there is no transport.
unfoldable pub broadcast_to_enclave :
    (ℕ → ℕ) → ℕ → ℕ → Gossip → Message → Option (Gossip × List Send)
unfolding mark broadcast_targets
broadcast_to_enclave draw max_seen now s msg =
    if s.has_transport
    then (let (s', _) = mark max_seen now s msg.message_id in
        some (s', send_all msg (broadcast_targets draw s')))
    else none

-- Without a transport each send throws, and the loop catches it.
unfoldable pub forward_to_enclave : (ℕ → ℕ) → Gossip → Message → List Send
forward_to_enclave draw s msg =
    let peers = get_replication_peers s in
    if leb (length peers) fanout_threshold
    then []
    else if s.has_transport
    then send_all msg (select_random_peers draw peers (fanout_size (length peers)) msg.from)
    else []

-- `send` and `broadcast`.
unfoldable pub send : Gossip → NodeInfo → Message → Option (List Send)
send s target msg =
    if s.has_transport then some (record { target = target; message = msg } ∷ []) else none

unfoldable pub broadcast : Gossip → Message → Option (List Send)
broadcast s msg = if s.has_transport then some (send_all msg (get_peers s)) else none

-- `this.peers.size >= this.replicationFactor - 1` returns early.
unfoldable pub perform_topology_sync : ℕ → Gossip → Option (Gossip × List Send)
unfolding broadcast
perform_topology_sync now s =
    if leb (s.replication_factor - 1) (size s.peers)
    then some (s, [])
    else elim (broadcast s (protocol_message now s sync [] (some s.local_node))) [
      | none ↦ none
      | some sends ↦ some (count_message s, sends)
    ]
