-- ===== src/Network/Replication.antt =====
-- repram-mcp/src/node/cluster.ts and gossip.ts: a write of one node, its PUTs at the peers, and their
-- ACKs back at the node.
use repram.Common.{
  ℕ, ◌+◌, ◌*◌, ◌≤◌, ◌<◌, ◌≡◌, refl, ap, ◌∙◌, Bool, if◌then◌else◌, true, false, none, some, [], ◌∷◌,
  Str, arith, leb, length, All, map, filter_by, Option-cases, inl, inr,
}
use repram.Common.JsMap.{insert, lookup-insert_self}
use repram.Wire.{NodeInfo, Message}
use repram.Tree.{Tree}
use repram.Storage
use repram.Storage.{Buffer, MemoryStore, ok}
use repram.Gossip.{get_replication_peers, count_message}
use repram.Gossip.Broadcast.{
  send_all, mark, fanout_threshold, broadcast_targets, broadcast_to_enclave,
}
use repram.Cluster.{
  ClusterNode, WriteOperation, peer_send, settle, created, quorum_size, broadcast_effects, send_put,
  replicate, write, put_message, open_route,
}
use repram.Cluster.Writes.{acknowledge, acknowledge-waiting, settled_after}
use repram.Cluster.Receive.{handle_put_message}
use repram.Network.{replies}
use repram.Network.Replies.{
  Responds, Responds-Accepts, all_acks, replies-send_all, all_acks-AcksOf, reads-Accepts,
}

broadcast_to_enclave-small :
    (draw : ℕ → ℕ) (max_seen now : ℕ) (n : ClusterNode) (msg : Message)
    → n.gossip.has_transport ≡ true
    → length (get_replication_peers n.gossip) ≤ fanout_threshold
    → broadcast_effects draw max_seen now n msg ≡ (
      record n { gossip = (mark max_seen now n.gossip msg.message_id).0 },
      map peer_send (send_all msg (get_replication_peers n.gossip)),
    )
unfolding broadcast_effects broadcast_to_enclave broadcast_targets mark get_replication_peers
broadcast_to_enclave-small draw max_seen now n msg t small = ground (arith, t, small)

-- The operation that a write leaves waiting.
abbrev pub waiting_op : ℕ → ClusterNode → WriteOperation
waiting_op caller n = record { caller = caller; confirmations = 1; quorum_needed = quorum_size n }

-- The node that sends the PUT: the value is stored, and the write waits.
abbrev pub sending : ℕ → ClusterNode → MemoryStore → Message → ClusterNode
sending caller n s msg = record n {
  store = s;
  pending_writes = insert msg.message_id (waiting_op caller n) n.pending_writes;
  gossip = count_message n.gossip;
}

abbrev pub after_write : ℕ → ℕ → ℕ → ClusterNode → MemoryStore → Message → ClusterNode
after_write max_seen now caller n s msg =
    let node = sending caller n s msg in
    record node { gossip = (mark max_seen now node.gossip msg.message_id).0 }

-- No tree manager, as in a cluster node by itself, or one without a parent, as in a server.
abbrev pub HasNoParent : ClusterNode → Type 0
HasNoParent n = (t : Tree) → n.tree ≡ some t → t.parent ≡ none

send_put-direct :
    (draw : ℕ → ℕ) (max_seen now : ℕ) (n : ClusterNode) (msg : Message)
    → HasNoParent n
    → send_put draw max_seen now n msg ≡ broadcast_effects draw max_seen now n msg
unfolding send_put
send_put-direct draw max_seen now n msg alone = elim (Option-cases n.tree) [
  | inl bare ↦ ground (arith, bare)
  | inr (t, managed) ↦ ground (arith, managed, alone t managed)
]

pub replicate-waits :
    (draw : ℕ → ℕ) (max_seen now caller quorum_needed : ℕ) (n : ClusterNode) (msg : Message)
    → 1 < quorum_needed
    → replicate draw max_seen now caller quorum_needed n msg
      ≡ send_put draw max_seen now
          (record n {
            pending_writes =
                insert msg.message_id
                  (record { caller = caller; confirmations = 1; quorum_needed = quorum_needed })
                  n.pending_writes;
          })
          msg
unfolding replicate
replicate-waits draw max_seen now caller quorum_needed n msg more = ground (arith, more)

pub write-broadcasts :
    (draw : ℕ → ℕ) (max_seen now caller : ℕ) (n : ClusterNode) (key : Str) (content : Buffer)
    (ttl : ℕ) (s : MemoryStore)
    → HasNoParent n
    → n.gossip.has_transport ≡ true
    → length (get_replication_peers n.gossip) ≤ fanout_threshold
    → 1 < quorum_size n
    → Storage.put now n.store key content ttl ≡ ok s
    → write draw max_seen now caller n key content ttl ≡ record {
      node = after_write max_seen now caller n s (put_message now n key content ttl);
      effects =
          map peer_send
            (send_all (put_message now n key content ttl) (get_replication_peers n.gossip));
      threw = false;
    }
unfolding write get_replication_peers
write-broadcasts draw max_seen now caller n key content ttl s alone t small quorum stored =
    let msg = put_message now n key content ttl in
    let counted : ClusterNode = record n { gossip = count_message n.gossip; store = s } in
    let node = sending caller n s msg in
    let sent =
      replicate-waits draw max_seen now caller (quorum_size n) counted msg quorum
      ∙ (send_put-direct draw max_seen now node msg alone
          ∙ broadcast_to_enclave-small draw max_seen now node msg t small) in
    rw (stored, write, sent) refl

-- A write that needs more than its own confirmation, at a node with a transport, without a parent and
-- with at most ten peers in its enclave, each of which takes its message or has no room for the value, where no
-- ACK route is open for the id of the PUT: a peer that takes it stores the value and can be asked for it while its TTL lasts, and the ACKs that come
-- back settle the promise with 201, once, if the peers that take it make a quorum with the node,
-- and leave it waiting otherwise.
pub write-replicates :
    (draw : ℕ → ℕ) (max_seen now later at caller : ℕ) (n : ClusterNode)
    (nodes : NodeInfo → ClusterNode) (takes : NodeInfo → Bool) (key : Str) (content : Buffer)
    (ttl : ℕ) (s : MemoryStore)
    → HasNoParent n
    → n.gossip.has_transport ≡ true
    → length (get_replication_peers n.gossip) ≤ fanout_threshold
    → 1 < quorum_size n
    → Storage.put now n.store key content ttl ≡ ok s
    → open_route n.tree (put_message now n key content ttl).message_id ≡ none
    → All
        (λ p. Responds later (put_message now n key content ttl) (takes p) (nodes p))
        (get_replication_peers n.gossip)
    → at < later + ttl * 1000
    → let msg = put_message now n key content ttl in
      let outcome = write draw max_seen now caller n key content ttl in
      let acks = replies draw max_seen later nodes outcome.effects in
      let takers = filter_by takes (get_replication_peers n.gossip) in
      ((acknowledge outcome.node acks).1
        ≡ (if leb (quorum_size n) (1 + length takers) then settle caller created ∷ [] else []))
      × All
          (λ p.
            Storage.get at (handle_put_message draw max_seen later (nodes p) msg).node.store key
            ≡ some content)
          takers
write-replicates draw max_seen now later at caller n nodes takes key content ttl s alone t small
      quorum stored unrouted responds young =
    let msg = put_message now n key content ttl in
    let peers = get_replication_peers n.gossip in
    let takers = filter_by takes peers in
    let op = waiting_op caller n in
    let after = after_write max_seen now caller n s msg in
    let (acks_of_msg, count) = all_acks-AcksOf later nodes msg takers in
    let settled =
      acknowledge-waiting after msg.message_id op (all_acks later nodes msg takers)
        (lookup-insert_self msg.message_id op n.pending_writes) quorum unrouted acks_of_msg in
    (
      rw
          (
            write-broadcasts draw max_seen now caller n key content ttl s alone t small quorum
                stored,
            replies-send_all draw max_seen later nodes takes msg peers refl responds,
          )
          (settled.0 ∙ ap (settled_after op) count),
      reads-Accepts draw max_seen later at nodes msg takers young
          (Responds-Accepts later nodes takes msg peers responds),
    )
