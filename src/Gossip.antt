-- ===== src/Gossip.antt =====
-- repram-mcp/src/node/gossip.ts: the state of `GossipProtocol`, its peers, and the handlers of the
-- messages that come in. A handler returns the new state and the sends that it starts; the clock is
-- an argument. Metrics callbacks and log lines are left out.
use repram.Common.{
  ℕ, ◌+◌, ◌-◌, ◌*◌, Bool, true, false, not, Option, none, some, List, [], ◌∷◌, ◌++◌, Str, ◌==◌,
  truthy, js, default_enclave, decimal, if◌then◌else◌, filter_by,
}
use repram.Common.JsMap.{JsMap, lookup, insert, erase, values}
use repram.Wire.{
  NodeInfo, Message, MessageType, put, get, ping, pong, sync, ack, other, with_enclave, or_default,
}
use repram.Seen.{SeenMessages}
pub mod Invariant
pub mod Sync
pub mod Volley
pub mod Broadcast
pub mod Health
pub mod Intervals

pub record Gossip : Type 0 where
  pub local_node : NodeInfo
  pub replication_factor : ℕ
  pub peers : JsMap NodeInfo
  pub peer_failures : JsMap ℕ
  pub seen_messages : SeenMessages
  -- `setTransport` was called.
  pub has_transport : Bool
  -- The counter of `generateMessageID`, which the module keeps.
  pub message_counter : ℕ

pub record Send : Type 0 where
  pub target : NodeInfo
  pub message : Message

-- `new GossipProtocol(localNode, replicationFactor, logger)`
unfoldable pub init : NodeInfo → ℕ → Gossip
init local_node replication_factor = record {
  local_node = local_node;
  replication_factor = replication_factor;
  peers = [];
  peer_failures = [];
  seen_messages = [];
  has_transport = false;
  message_counter = 0;
}

-- `${nanos}-${messageCounter}`, with the counter already incremented.
unfoldable pub message_id_of : ℕ → ℕ → Str
message_id_of now counter = decimal (now * 1000000) ++ js "-" ++ decimal counter

abbrev pub count_message : Gossip → Gossip
count_message s = record s { message_counter = s.message_counter + 1 }

unfoldable pub add_peer : Gossip → NodeInfo → Gossip
add_peer s node = record s {
  peers = insert node.id node s.peers;
  peer_failures = erase node.id s.peer_failures;
}

unfoldable pub remove_peer : Gossip → Str → Gossip
remove_peer s id = record s { peers = erase id s.peers; peer_failures = erase id s.peer_failures }

abbrev pub get_peers : Gossip → List NodeInfo
get_peers s = values s.peers

unfoldable pub get_replication_peers : Gossip → List NodeInfo
get_replication_peers s = filter_by (λ p. p.enclave == s.local_node.enclave) (values s.peers)

unfoldable pub peer_failure_count : Gossip → Str → ℕ
peer_failure_count s id = or_default 0 (lookup id s.peer_failures)

-- A protocol message of the local node, with the id that was generated for it.
abbrev pub protocol_message : ℕ → Gossip → MessageType → Str → Option NodeInfo → Message
protocol_message now s type to node_info = record {
  type = type;
  from = s.local_node.id;
  to = to;
  key = [];
  payload = [];
  ttl = 0;
  timestamp = now;
  message_id = message_id_of now (s.message_counter + 1);
  node_info = node_info;
}

-- `this.transport?.send(target, msg)`
abbrev pub send_if_set : Gossip → NodeInfo → Message → List Send
send_if_set s target msg =
    if s.has_transport then record { target = target; message = msg } ∷ [] else []

unfoldable pub handle_ping : ℕ → Gossip → Message → Gossip × List Send
handle_ping now s msg = elim (lookup msg.from s.peers) [
  | none ↦ (s, [])
  | some peer ↦ (
    count_message s,
    send_if_set s peer (protocol_message now s pong msg.from (some s.local_node)),
  )
]

-- `const enclave = msg.nodeInfo.enclave || "default"`
unfoldable pub update_enclave : Gossip → NodeInfo → Gossip
update_enclave s info =
    let enclave = if truthy info.enclave then info.enclave else default_enclave in
    elim (lookup info.id s.peers) [
      | none ↦ s
      | some existing ↦
          if existing.enclave == enclave
          then s
          else record s { peers = insert info.id (record existing { enclave = enclave }) s.peers }
    ]

unfoldable pub handle_pong : Gossip → Message → Gossip
unfolding update_enclave
handle_pong s msg =
    let alive : Gossip = record s { peer_failures = erase msg.from s.peer_failures } in
    elim msg.node_info [ none ↦ alive | some info ↦ update_enclave alive info ]

-- The body of the loop of `respondWithPeerList`, over the nodes that are left.
unfoldable pub sync_sends : ℕ → NodeInfo → Str → Gossip → List NodeInfo → Gossip × List Send
sync_sends now target target_id s [] = (s, [])
sync_sends now target target_id s (node ∷ nodes) =
    let skipped = node.id == target_id in
    let (s', rest) =
      sync_sends now target target_id (if skipped then s else count_message s) nodes in
    (
      s',
      if skipped
          then rest
          else send_if_set s target (protocol_message now s sync [] (some node)) ++ rest,
    )

unfoldable pub respond_with_peer_list : ℕ → Gossip → Str → Gossip × List Send
unfolding sync_sends
respond_with_peer_list now s target_id = elim (lookup target_id s.peers) [
  | none ↦ (s, [])
  | some target ↦ sync_sends now target target_id s (get_peers s ++ s.local_node ∷ [])
]

-- The part of `handleSync` that adds or updates a peer.
unfoldable pub learn : Gossip → NodeInfo → Gossip
unfolding add_peer
learn s info = elim (lookup info.id s.peers) [
  | none ↦ add_peer s info
  | some existing ↦ if existing.enclave == info.enclave then s else add_peer s info
]

unfoldable pub handle_sync_from : ℕ → Gossip → Message → NodeInfo → Gossip × List Send
unfolding learn respond_with_peer_list
handle_sync_from now s msg info =
    if info.id == s.local_node.id
    then (s, [])
    else if info.id == msg.from
    then respond_with_peer_list now (learn s (with_enclave info)) msg.from
    else (learn s (with_enclave info), [])

unfoldable pub handle_sync : ℕ → Gossip → Message → Gossip × List Send
unfolding handle_sync_from
handle_sync now s msg = elim msg.node_info [
  | none ↦ (s, [])
  | some info ↦ handle_sync_from now s msg info
]

-- The state, the sends, and the message that goes to the application's handler.
pub record Handled : Type 0 where
  pub gossip : Gossip
  pub sends : List Send
  pub application : Option Message

abbrev pub handled : Gossip × List Send → Handled
handled r = record { gossip = r.0; sends = r.1; application = none }

unfoldable pub dispatch : MessageType → ℕ → Gossip → Message → Handled
unfolding handle_ping handle_pong handle_sync
dispatch ping now s msg = handled (handle_ping now s msg)
dispatch pong now s msg = handled (handle_pong s msg, [])
dispatch sync now s msg = handled (handle_sync now s msg)
dispatch type now s msg = record { gossip = s; sends = []; application = some msg }

unfoldable pub handle_message : ℕ → Gossip → Message → Handled
unfolding dispatch
handle_message now s msg = dispatch msg.type now s msg
