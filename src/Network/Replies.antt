-- ===== src/Network/Replies.antt =====
-- repram-mcp/src/node/cluster.ts: the ACKs that a PUT brings back from the peers of its sender.
use repram.Common.{
  ℕ, suc, ◌+◌, ◌*◌, ◌<◌, ◌≡◌, refl, Bool, ap, ◌∙◌, true, false, Option, none, some, List, [], ◌∷◌,
  ◌++◌, Str, eq_refl, arith, lt→ltb, leb, Bool-cases, Option-cases, inl, inr, length, All, map,
  filter_by, ◌⊎◌,
}
use repram.Common.JsMap.{JsMap}
use repram.Wire.{NodeInfo, Message, put}
use repram.Storage
use repram.Storage.{MemoryStore, ok, store_full}
use repram.Storage.Reads.{get-put}
use repram.Tree.{Tree}
use repram.Gossip.{get_peers, get_replication_peers}
use repram.Gossip.Broadcast.{send_all, forward_to_enclave, fanout_threshold}
use repram.Fanout.{select_random_peers, fanout_size}
use repram.Cluster.{ClusterNode, Effect, peer_send}
use repram.Cluster.Writes.{AcksOf}
use repram.Cluster.Receive.{
  handle_put_message, ack_message, find_peer, forward_to_children, children_effects,
}
use repram.Cluster.Receive.Puts.{is_seen, marked, handle_put_stored, handle_put_full}
use repram.Cluster.Receive.Full.{ack_originator-known}
use repram.Network.{acks_of, replies}

-- A node that takes a PUT and acknowledges it: the message is new, its value fits, and the originator
-- is a peer.
pub record Accepts (now : ℕ) (msg : Message) (b : ClusterNode) : Type 0 where
  pub new : is_seen b msg.message_id ≡ false
  pub fits : (s : MemoryStore) × (Storage.put now b.store msg.key msg.payload msg.ttl ≡ ok s)
  pub knows : (o : NodeInfo) × (find_peer msg.from (get_peers b.gossip) ≡ some o)
  pub linked : b.gossip.has_transport ≡ true

acks_of-append : (xs ys : List Effect) → acks_of (xs ++ ys) ≡ acks_of xs ++ acks_of ys
unfolding acks_of
acks_of-append [] ys = refl
acks_of-append (Effect.peer_send s ∷ xs) ys = ground (arith, acks_of-append xs ys)
acks_of-append (Effect.conn_send conn msg ∷ xs) ys = acks_of-append xs ys
acks_of-append (Effect.settle caller status ∷ xs) ys = acks_of-append xs ys

acks_of-send_all :
    (msg : Message) (ps : List NodeInfo)
    → msg.type ≡ put
    → acks_of (map peer_send (send_all msg ps)) ≡ []
unfolding acks_of
acks_of-send_all msg [] e = refl
acks_of-send_all msg (p ∷ ps) e = ground (arith, e, acks_of-send_all msg ps e)

acks_of-forward :
    (draw : ℕ → ℕ) (b : ClusterNode) (msg : Message)
    → msg.type ≡ put
    → acks_of (map peer_send (forward_to_enclave draw b.gossip msg)) ≡ []
unfolding forward_to_enclave acks_of get_replication_peers
acks_of-forward draw b msg e =
    let peers = get_replication_peers b.gossip in
    elim (Bool-cases (leb (length peers) fanout_threshold)) [
      | inl small ↦ rw small refl
      | inr large ↦ elim (Bool-cases b.gossip.has_transport) [
        | inl linked ↦
            rw (large, linked)
              (acks_of-send_all msg
                (select_random_peers draw peers (fanout_size (length peers)) msg.from) e)
        | inr alone ↦ rw (large, alone) refl
      ]
    ]

acks_of-children :
    (t : Tree) (enclave : Str) (skip : Option Str) (msg : Message) (children : JsMap ℕ)
    → acks_of (forward_to_children t enclave skip msg children) ≡ []
unfolding acks_of forward_to_children
acks_of-children t enclave skip msg [] = refl
acks_of-children t enclave skip msg ((id, conn) ∷ children) =
    ground (arith, acks_of-children t enclave skip msg children)

-- The node's other effects hold no ACK.
acks_of-rest :
    (draw : ℕ → ℕ) (b : ClusterNode) (msg : Message)
    → msg.type ≡ put
    → acks_of (map peer_send (forward_to_enclave draw b.gossip msg) ++ children_effects b none msg)
      ≡ []
acks_of-rest draw b msg e = elim (Option-cases b.tree) [
  | inl alone ↦ rw (acks_of-append, acks_of-forward draw b msg e, alone) (unfold acks_of in refl)
  | inr (t, e') ↦
      rw (acks_of-append, acks_of-forward draw b msg e, e')
        (acks_of-children t b.gossip.local_node.enclave none msg t.children)
]

acks_of-handle_put :
    (draw : ℕ → ℕ) (max_seen now : ℕ) (b : ClusterNode) (msg : Message)
    → msg.type ≡ put
    → Accepts now msg b
    → acks_of (handle_put_message draw max_seen now b msg).effects ≡ ack_message now b msg ∷ []
acks_of-handle_put draw max_seen now b msg e v =
    let (s, stored) = v.fits in
    let (o, known) = v.knows in
    let after : ClusterNode = record (marked max_seen now b msg) { store = s } in
    let acked = ack_originator-known max_seen now b msg s o known v.linked in
    rw (handle_put_stored draw max_seen now b msg s v.new stored, acked, acks_of-append)
      (unfold acks_of in ap (◌∷◌ (ack_message now b msg)) (rw (acks_of-rest draw after msg e) refl))

-- All the peers acknowledge, in their order.
abbrev pub all_acks : ℕ → (NodeInfo → ClusterNode) → Message → List NodeInfo → List Message
all_acks now nodes msg [] = []
all_acks now nodes msg (p ∷ ps) = ack_message now (nodes p) msg ∷ all_acks now nodes msg ps

-- A node that has no room for the value of a PUT: its handler throws, and sends no ACK.
abbrev pub Refuses : ℕ → Message → ClusterNode → Type 0
Refuses now msg b =
    (is_seen b msg.message_id ≡ false)
    × (Storage.put now b.store msg.key msg.payload msg.ttl ≡ store_full)

-- A node takes the PUT, or has no room for it.
abbrev pub Responds : ℕ → Message → Bool → ClusterNode → Type 0
Responds now msg takes b =
    ((takes ≡ true) × Accepts now msg b) ⊎ ((takes ≡ false) × Refuses now msg b)

pub replies-send_all :
    (draw : ℕ → ℕ) (max_seen now : ℕ) (nodes : NodeInfo → ClusterNode) (takes : NodeInfo → Bool)
    (msg : Message) (ps : List NodeInfo)
    → msg.type ≡ put
    → All (λ p. Responds now msg (takes p) (nodes p)) ps
    → replies draw max_seen now nodes (map peer_send (send_all msg ps))
      ≡ all_acks now nodes msg (filter_by takes ps)
unfolding replies
replies-send_all draw max_seen now nodes takes msg [] e a = refl
replies-send_all draw max_seen now nodes takes msg (p ∷ ps) e a =
    let rest = replies-send_all draw max_seen now nodes takes msg ps e a.1 in
    elim a.0 [
      | inl (yes_, accepts) ↦
          rw (acks_of-handle_put draw max_seen now (nodes p) msg e accepts, rest, yes_) refl
      | inr (no_, (new, full)) ↦
          rw (handle_put_full draw max_seen now (nodes p) msg new full, rest, no_)
            (unfold acks_of in refl)
    ]

pub Responds-Accepts :
    (now : ℕ) (nodes : NodeInfo → ClusterNode) (takes : NodeInfo → Bool) (msg : Message)
    (ps : List NodeInfo)
    → All (λ p. Responds now msg (takes p) (nodes p)) ps
    → All (λ p. Accepts now msg (nodes p)) (filter_by takes ps)
Responds-Accepts now nodes takes msg [] a = tt
Responds-Accepts now nodes takes msg (p ∷ ps) a =
    let rest = Responds-Accepts now nodes takes msg ps a.1 in
    elim a.0 [ inl (yes_, accepts) ↦ rw yes_ (accepts, rest) | inr (no_, refuses) ↦ rw no_ rest ]

pub all_acks-AcksOf :
    (now : ℕ) (nodes : NodeInfo → ClusterNode) (msg : Message) (ps : List NodeInfo)
    → AcksOf msg.message_id (all_acks now nodes msg ps)
      × (length (all_acks now nodes msg ps) ≡ length ps)
all_acks-AcksOf now nodes msg [] = (tt, refl)
all_acks-AcksOf now nodes msg (p ∷ ps) =
    let (acks, count) = all_acks-AcksOf now nodes msg ps in ((refl, acks), ap suc count)

-- And each holds the value until its TTL is over.
pub reads-Accepts :
    (draw : ℕ → ℕ) (max_seen now at : ℕ) (nodes : NodeInfo → ClusterNode) (msg : Message)
    (ps : List NodeInfo)
    → at < now + msg.ttl * 1000
    → All (λ p. Accepts now msg (nodes p)) ps
    → All
        (λ p.
          Storage.get at (handle_put_message draw max_seen now (nodes p) msg).node.store msg.key
          ≡ some msg.payload)
        ps
reads-Accepts draw max_seen now at nodes msg [] young a = tt
reads-Accepts draw max_seen now at nodes msg (p ∷ ps) young a =
    let (s, stored) = a.0.fits in
    let read = get-put now at (nodes p).store msg.key msg.key msg.payload msg.ttl stored in
    (
      rw (handle_put_stored draw max_seen now (nodes p) msg s a.0.new stored)
          (read ∙ rw (eq_refl msg.key, lt→ltb at (now + msg.ttl * 1000) young)),
      reads-Accepts draw max_seen now at nodes msg ps young a.1,
    )
