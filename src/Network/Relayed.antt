-- ===== src/Network/Relayed.antt =====
-- repram-mcp/src/node/cluster.ts: a write of a node that is attached to a parent, from the child over the
-- parent to the mesh and back. Messages between the two go over the wire format.
use repram.Common.{
  ℕ, suc, ◌+◌, ◌*◌, ◌≤◌, ◌<◌, ◌≡◌, refl, ap, ◌∙◌, true, false, none, some, List, [], ◌∷◌, Str,
  arith, leb, le→leb, lt→ltb, eq_refl, length, All, map, All-map,
}
use repram.Common.JsMap.{lookup-insert_self, lookup-erase}
use repram.Wire.{Message}
use repram.Wire.RoundTrip.{received}
use repram.Storage
use repram.Storage.{Buffer, MemoryStore, ok}
use repram.Storage.Reads.{get-put}
use repram.Tree.{Tree, get_ack_route, on_ack_route_timer}
use repram.Cluster.{
  ClusterNode, Effect, conn_send, settle, created, quorum_size, send_put, write, put_message,
  open_route, handle_ack_message,
}
use repram.Gossip.{count_message}
use repram.Cluster.Writes.{AcksOf, acknowledge, acknowledge-waiting}
use repram.Cluster.Receive.{handle_relay_put, ack_message}
use repram.Cluster.Receive.Puts.{is_seen}
use repram.Cluster.Receive.Relay.{handle_relay_put-routes}
use repram.Network.Replication.{waiting_op, sending, replicate-waits}

send_put-parent :
    (draw : ℕ → ℕ) (max_seen now : ℕ) (n : ClusterNode) (t : Tree) (up : ℕ) (msg : Message)
    → n.tree ≡ some t
    → t.parent ≡ some up
    → (t.conns up).closed ≡ false
    → send_put draw max_seen now n msg ≡ (n, conn_send up msg ∷ [])
unfolding send_put
send_put-parent draw max_seen now n t up msg attached parent live =
    ground (arith, attached, parent, live)

-- The write waits, and its PUT goes to the parent alone.
pub write-relays :
    (draw : ℕ → ℕ) (max_seen now caller : ℕ) (c : ClusterNode) (t : Tree) (up : ℕ) (key : Str)
    (content : Buffer) (ttl : ℕ) (s : MemoryStore)
    → c.tree ≡ some t
    → t.parent ≡ some up
    → (t.conns up).closed ≡ false
    → 1 < quorum_size c
    → Storage.put now c.store key content ttl ≡ ok s
    → write draw max_seen now caller c key content ttl ≡ record {
      node = sending caller c s (put_message now c key content ttl);
      effects = conn_send up (put_message now c key content ttl) ∷ [];
      threw = false;
    }
unfolding write
write-relays draw max_seen now caller c t up key content ttl s attached parent live quorum stored =
    let msg = put_message now c key content ttl in
    let counted : ClusterNode = record c { gossip = count_message c.gossip; store = s } in
    let node = sending caller c s msg in
    let sent =
      replicate-waits draw max_seen now caller (quorum_size c) counted msg quorum
      ∙ send_put-parent draw max_seen now node t up msg attached parent live in
    rw (stored, write, sent) refl

-- The ACKs of a message keep its id on the wire.
received-AcksOf :
    (id : Str) (replies : List Message) → AcksOf id replies → AcksOf id (map received replies)
received-AcksOf id replies a = All-map (λ m. m.message_id ≡ id) received replies a

length-map {ℓ κ} :
    {A : Type ℓ} {B : Type κ} (f : A → B) (xs : List A) → length (map f xs) ≡ length xs
length-map f [] = refl
length-map f (x ∷ xs) = ap suc (length-map f xs)

relay-All :
    (draw : ℕ → ℕ) (max_seen later timer : ℕ) (p : ClusterNode) (t : Tree) (msg : Message)
    (conn : ℕ) (s : MemoryStore) (replies : List Message)
    → is_seen p msg.message_id ≡ false
    → Storage.put later p.store msg.key msg.payload msg.ttl ≡ ok s
    → p.tree ≡ some t
    → (t.conns conn).closed ≡ false
    → AcksOf msg.message_id replies
    → let r = handle_relay_put draw max_seen later timer p msg conn in
      All (λ reply. handle_ack_message r.node reply ≡ (r.node, conn_send conn reply ∷ [])) replies
relay-All draw max_seen later timer p t msg conn s [] new stored attached live a = tt
relay-All draw max_seen later timer p t msg conn s (reply ∷ replies) new stored attached live a = (
  (handle_relay_put-routes draw max_seen later timer p t msg reply conn s new stored attached live
      a.0).2,
  relay-All draw max_seen later timer p t msg conn s replies new stored attached live a.1,
)

on_ack_route_timer-closes :
    (t : Tree) (id : Str) → open_route (some (on_ack_route_timer t id)) id ≡ none
unfolding open_route get_ack_route on_ack_route_timer
on_ack_route_timer-closes t id = ground (arith, lookup-erase id id t.ack_routes, eq_refl id)

-- A write that needs more than its own confirmation, of a node that is attached to a parent, over
-- connections that are open at both ends, where the parent takes the PUT, no ACK route is open for its
-- id at the node, and nothing else happens at the parent until the ACKs of the mesh are there: the PUT
-- goes to the parent alone, which stores the value, acknowledges it and passes on these ACKs. When
-- they are enough for the quorum, they settle the promise with 201, once. The value can be read at the
-- parent while its TTL lasts. Once the timer of the ACK route has fired, the parent has no open route
-- for the message.
pub write-relayed :
    (draw : ℕ → ℕ) (max_seen now later timer at caller : ℕ) (c p : ClusterNode) (ct pt : Tree)
    (up conn : ℕ) (key : Str) (content : Buffer) (ttl : ℕ) (s ps : MemoryStore)
    (replies : List Message)
    → c.tree ≡ some ct
    → ct.parent ≡ some up
    → (ct.conns up).closed ≡ false
    → 1 < quorum_size c
    → Storage.put now c.store key content ttl ≡ ok s
    → open_route c.tree (put_message now c key content ttl).message_id ≡ none
    → is_seen p (put_message now c key content ttl).message_id ≡ false
    → Storage.put later p.store key content ttl ≡ ok ps
    → p.tree ≡ some pt
    → (pt.conns conn).closed ≡ false
    → AcksOf (put_message now c key content ttl).message_id replies
    → quorum_size c ≤ suc (suc (length replies))
    → at < later + ttl * 1000
    → let msg = put_message now c key content ttl in
      let outcome = write draw max_seen now caller c key content ttl in
      let r = handle_relay_put draw max_seen later timer p (received msg) conn in
      let first = ack_message later p (received msg) in
      (outcome.effects ≡ conn_send up msg ∷ [])
      × ((rest : List Effect) × (r.effects ≡ conn_send conn first ∷ rest))
      × All (λ reply. handle_ack_message r.node reply ≡ (r.node, conn_send conn reply ∷ [])) replies
      × ((acknowledge outcome.node (map received (first ∷ replies))).1 ≡ settle caller created ∷ [])
      × (Storage.get at r.node.store key ≡ some content)
      × ((t : Tree)
          → r.node.tree ≡ some t
          → open_route (some (on_ack_route_timer t msg.message_id)) msg.message_id ≡ none)
write-relayed draw max_seen now later timer at caller c p ct pt up conn key content ttl s ps replies
      attached parent live quorum stored unrouted new taken serves open_conn acks enough young =
    let msg = put_message now c key content ttl in
    let arrived = received msg in
    let first = ack_message later p arrived in
    let node = sending caller c s msg in
    let op = waiting_op caller c in
    let relays =
      write-relays draw max_seen now caller c ct up key content ttl s attached parent live quorum
        stored in
    let (answer, kept, _) =
      handle_relay_put-routes draw max_seen later timer p pt arrived first conn ps new taken serves
        open_conn refl in
    let settled =
      acknowledge-waiting node msg.message_id op (map received (first ∷ replies))
        (lookup-insert_self msg.message_id op c.pending_writes) quorum unrouted
        (refl, received-AcksOf msg.message_id replies acks) in
    let reached : leb op.quorum_needed (op.confirmations + length (map received (first ∷ replies)))
        ≡ true =
      le→leb (quorum_size c) (1 + suc (length (map received replies)))
        (rw (length-map received replies) (omega (arith, enough))) in
    let read = get-put later at p.store key key content ttl taken in
    (
      ap (λ o. o.effects) relays,
      answer,
      relay-All draw max_seen later timer p pt arrived conn ps replies new taken serves open_conn
          acks,
      ap (λ o. (acknowledge o.node (map received (first ∷ replies))).1) relays
          ∙ (settled.0 ∙ rw reached refl),
      rw kept (read ∙ rw (eq_refl key, lt→ltb at (later + ttl * 1000) young) refl),
      λ t has_tree. on_ack_route_timer-closes t msg.message_id,
    )
