-- ===== src/Cluster.antt =====
-- repram-mcp/src/node/cluster.ts: the state of `ClusterNode`, the quorum, and the writes that wait
-- for acknowledgements. The promise of a write is known by the number of its caller; a promise that
-- settles is an effect, as is each message that is sent to a peer or over a connection.
use repram.Common.{
  ℕ, ◌+◌, ◌/◌, min, max, Bool, true, false, not, Option, none, some, List, [], ◌∷◌, ◌++◌, Str, js,
  decimal, leb, if◌then◌else◌, length, map,
}
use repram.Common.JsMap.{JsMap, lookup, insert, erase}
use repram.Wire.{NodeInfo, Message, MessageType, put, ack}
use repram.Storage
use repram.Storage.{MemoryStore, Buffer, Result, ok, store_full}
use repram.Gossip.{Gossip, Send, get_replication_peers, count_message, message_id_of}
use repram.Gossip.Broadcast.{broadcast_to_enclave}
use repram.Tree.{Tree, Connection, get_ack_route}
pub mod Quorum
pub mod Writes
pub mod Settling
pub mod Receive
pub mod Setup

-- 201 and 202.
pub data WriteStatus : Type 0 where
  created accepted : WriteStatus

pub record WriteOperation : Type 0 where
  pub caller : ℕ
  pub confirmations : ℕ
  pub quorum_needed : ℕ

pub record ClusterNode : Type 0 where
  pub gossip : Gossip
  pub store : MemoryStore
  pub replication_factor : ℕ
  pub pending_writes : JsMap WriteOperation
  pub tree : Option Tree

pub data Effect : Type 0 where
  peer_send : Send → Effect
  conn_send : ℕ → Message → Effect
  settle : ℕ → WriteStatus → Effect

-- What a handler leaves: the node, its effects in order, and whether it threw `StoreFull`.
pub record Outcome : Type 0 where
  pub node : ClusterNode
  pub effects : List Effect
  pub threw : Bool

unfoldable pub quorum_size : ClusterNode → ℕ
quorum_size n =
    let enclave_nodes = length (get_replication_peers n.gossip) + 1 in
    let effective = min enclave_nodes n.replication_factor in max (effective / 2 + 1) 1

-- `sendGossipMessage` does nothing on a closed connection.
abbrev pub to_conn : Tree → ℕ → Message → List Effect
to_conn t conn msg = if (t.conns conn).closed then [] else conn_send conn msg ∷ []

-- `broadcastToEnclave(msg)`, whose rejection is caught: without a transport nothing happens.
unfoldable pub broadcast_effects :
    (ℕ → ℕ) → ℕ → ℕ → ClusterNode → Message → ClusterNode × List Effect
broadcast_effects draw max_seen now n msg =
    elim (broadcast_to_enclave draw max_seen now n.gossip msg) [
      | none ↦ (n, [])
      | some (g, sends) ↦ (record n { gossip = g }, map peer_send sends)
    ]

-- Step 5 of `put`: over the open connection to the parent, and otherwise to the enclave.
unfoldable pub send_put : (ℕ → ℕ) → ℕ → ℕ → ClusterNode → Message → ClusterNode × List Effect
unfolding broadcast_effects
send_put draw max_seen now n msg =
    let direct = broadcast_effects draw max_seen now n msg in
    elim n.tree [
      | none ↦ direct
      | some t ↦ elim t.parent [
        | none ↦ direct
        | some conn ↦ if (t.conns conn).closed then direct else (n, conn_send conn msg ∷ [])
      ]
    ]

abbrev pub put_message_id : ℕ → Gossip → Str → Str
put_message_id now g key =
    key ++ (js "-" ++ (decimal now ++ (js "-" ++ message_id_of now (g.message_counter + 1))))

abbrev pub put_message : ℕ → ClusterNode → Str → Buffer → ℕ → Message
put_message now n key data_bytes ttl_seconds = record {
  type = put;
  from = (n.gossip).local_node.id;
  to = [];
  key = key;
  payload = data_bytes;
  ttl = ttl_seconds;
  timestamp = now;
  message_id = put_message_id now n.gossip key;
  node_info = none;
}

-- Steps 2 to 5 of `put`, after the local write. The promise is settled at once, or waits in
-- `pendingWrites` with one confirmation.
unfoldable pub replicate :
    (ℕ → ℕ) → ℕ → ℕ → ℕ → ℕ → ClusterNode → Message → ClusterNode × List Effect
unfolding send_put
replicate draw max_seen now caller quorum_needed n msg =
    let operation : WriteOperation = record {
      caller = caller;
      confirmations = 1;
      quorum_needed = quorum_needed;
    } in
    let waiting = record n { pending_writes = insert msg.message_id operation n.pending_writes } in
    if leb quorum_needed 1
    then (n, settle caller created ∷ [])
    else send_put draw max_seen now waiting msg

unfoldable pub write : (ℕ → ℕ) → ℕ → ℕ → ℕ → ClusterNode → Str → Buffer → ℕ → Outcome
unfolding replicate
write draw max_seen now caller n key data_bytes ttl_seconds =
    let counted = record n { gossip = count_message n.gossip } in
    let msg = put_message now n key data_bytes ttl_seconds in
    elim (Storage.put now n.store key data_bytes ttl_seconds) [
      | store_full ↦ record { node = counted; effects = []; threw = true }
      | ok s ↦
          let (node, effects) =
            replicate draw max_seen now caller (quorum_size n) (record counted { store = s }) msg in
          record { node = node; effects = effects; threw = false }
    ]

-- The callback of the timer of a write.
unfoldable pub on_write_timeout : ClusterNode → Str → ℕ → ClusterNode × List Effect
on_write_timeout n message_id caller =
    (record n { pending_writes = erase message_id n.pending_writes }, settle caller accepted ∷ [])

-- The part of `handleAckMessage` after the routing.
unfoldable pub confirm : ClusterNode → Str → ClusterNode × List Effect
confirm n message_id = elim (lookup message_id n.pending_writes) [
  | none ↦ (n, [])
  | some op ↦
      let confirmations = op.confirmations + 1 in
      if leb op.quorum_needed confirmations
      then (
        record n { pending_writes = erase message_id n.pending_writes },
        settle op.caller created ∷ [],
      )
      else (
        record n {
          pending_writes =
              insert message_id (record op { confirmations = confirmations }) n.pending_writes;
        },
        [],
      )
]

-- The connection to which an ACK is relayed, if its route is there and open.
unfoldable pub open_route : Option Tree → Str → Option ℕ
open_route none message_id = none
open_route (some t) message_id = elim (get_ack_route t message_id) [
  | none ↦ none
  | some conn ↦ if (t.conns conn).closed then none else some conn
]

unfoldable pub handle_ack_message : ClusterNode → Message → ClusterNode × List Effect
handle_ack_message n msg = elim (open_route n.tree msg.message_id) [
  | none ↦ confirm n msg.message_id
  | some conn ↦ (n, conn_send conn msg ∷ [])
]

-- `stop`: every promise that waits is settled with 202, and the store is closed.
unfoldable pub stop : ClusterNode → ClusterNode × List Effect
stop n = (
  record n { pending_writes = []; store = Storage.close n.store },
  map (λ e. settle ((e.1).caller) accepted) n.pending_writes,
)
