-- ===== src/Cluster/Receive/Full.antt =====
-- repram-mcp/src/node/cluster.ts: a replicated PUT that is stored, and one that finds a full store.
use repram.Common.{
  ℕ, ◌+◌, ◌*◌, ◌<◌, ◌≤◌, ◌≡◌, refl, ap, ◌∙◌, arith, leb, le→leb, length, Str, true, false, false,
  none, some, List, [], ◌∷◌, ◌++◌, eq_refl, lt→ltb, map,
}
use repram.Common.JsMap.{
  IsMap, has, size, insert, insert-IsMap, lookup, lookup-insert_self, lookup-has,
}
use repram.Seen.{SeenMessages, mark_seen, cleanup_seen_messages, seen_message_ttl_ms}
use repram.Seen.Dedup.{has-cleanup_seen_messages}
use repram.Seen.Window.{Event, run, AllBefore}
use repram.Wire.{NodeInfo, Message}
use repram.Storage
use repram.Storage.{MemoryStore, Result, ok, store_full}
use repram.Storage.Reads.{get-put}
use repram.Gossip.{Gossip, get_peers}
use repram.Gossip.Broadcast.{mark, send, forward_to_enclave}
use repram.Cluster.{ClusterNode, Effect, peer_send}
use repram.Cluster.Receive.{
  handle_put_message, ack_originator, ack_message, find_peer, children_effects,
}
use repram.Cluster.Receive.Puts.{
  is_seen, marked, handle_put_full, handle_put_stored, seen-handle_put, handle_put_message_twice,
}

-- A cleanup that comes a minute after a new id was marked forgets it.
has-forgotten :
    (max_seen now late : ℕ) (seen : SeenMessages) (id : Str)
    → IsMap seen
    → has id seen ≡ false
    → size seen < max_seen
    → now + seen_message_ttl_ms ≤ late
    → has id (cleanup_seen_messages late (mark_seen max_seen now seen id).0) ≡ false
unfolding mark_seen
has-forgotten max_seen now late seen id m new room old =
    let expiry = now + seen_message_ttl_ms in
    let below : leb max_seen (size seen) ≡ false = ground (arith, room) in
    let kept = insert id expiry seen in
    let cleaned = has-cleanup_seen_messages late kept id (insert-IsMap id expiry seen m) in
    let over = le→leb expiry late old in
    let gone : lookup id (cleanup_seen_messages late kept) ≡ none =
      cleaned ∙ (rw (lookup-insert_self id expiry seen, over) refl) in
    rw (new, below) (lookup-has id (cleanup_seen_messages late kept) gone)

-- A replicated PUT that finds the store full is lost while the dedup cache holds its id. The handler
-- throws after it has marked the message: the store is unchanged and no ACK is sent. A redelivery less
-- than a minute later is skipped as a duplicate, without a write and without an ACK, also when there
-- is room again, where the cache saw other marks and cleanups in between, too few to fill it. After a
-- cleanup of the cache that the first delivery left, a minute or more after it, a redelivery that fits
-- is stored.
pub handle_put_message_lost :
    (draw draw' : ℕ → ℕ) (max_seen now at late : ℕ) (n later : ClusterNode) (msg : Message)
    (es : List (ℕ × Event)) (s : MemoryStore)
    → is_seen n msg.message_id ≡ false
    → Storage.put now n.store msg.key msg.payload msg.ttl ≡ store_full
    → IsMap (n.gossip).seen_messages
    → size (n.gossip).seen_messages + 1 + length es ≤ max_seen
    → AllBefore es at
    → at < now + seen_message_ttl_ms
    → (later.gossip).seen_messages
      ≡ run max_seen es ((handle_put_message draw max_seen now n msg).node.gossip).seen_messages
    → now + seen_message_ttl_ms ≤ late
    → Storage.put late later.store msg.key msg.payload msg.ttl ≡ ok s
    → let r = handle_put_message draw max_seen now n msg in
      let cleaned : Gossip = record later.gossip {
        seen_messages = cleanup_seen_messages late ((r.node).gossip).seen_messages;
      } in
      (r.threw ≡ true)
      × (r.effects ≡ [])
      × ((r.node).store ≡ n.store)
      × (handle_put_message draw' max_seen at later msg
          ≡ record { node = later; effects = []; threw = false })
      × ((handle_put_message draw' max_seen late (record later { gossip = cleaned }) msg).node.store
          ≡ s)
handle_put_message_lost draw draw' max_seen now at late n later msg es s new full m fits before
      young same old stored =
    let id = msg.message_id in
    let seen = (n.gossip).seen_messages in
    let r = handle_put_message draw max_seen now n msg in
    let e = handle_put_full draw max_seen now n msg new full in
    let forgotten = has-forgotten max_seen now late seen id m new (omega (arith, fits)) old in
    let cleaned : ClusterNode = record later {
      gossip = record later.gossip {
        seen_messages = cleanup_seen_messages late ((r.node).gossip).seen_messages;
      };
    } in
    let fresh : is_seen cleaned id ≡ false =
      rw (seen-handle_put draw max_seen now n msg new) forgotten in
    (
      ap (λ o. o.threw) e,
      ap (λ o. o.effects) e,
      ap (λ o. (o.node).store) e,
      handle_put_message_twice draw draw' max_seen now at n later msg es new m fits before young
          same,
      ap (λ o. (o.node).store) (handle_put_stored draw' max_seen late cleaned msg s fresh stored),
    )

pub ack_originator-known :
    (max_seen now : ℕ) (n : ClusterNode) (msg : Message) (s : MemoryStore) (originator : NodeInfo)
    → find_peer msg.from (get_peers n.gossip) ≡ some originator
    → (n.gossip).has_transport ≡ true
    → ack_originator now (record (marked max_seen now n msg) { store = s }) msg
      ≡ peer_send (record { target = originator; message = ack_message now n msg }) ∷ []
unfolding ack_originator mark send
ack_originator-known max_seen now n msg s originator known t = rw (known, t)

-- A new PUT that fits is stored, so that it can be read until its TTL has passed, and the first
-- thing sent is an ACK for it to its originator, if that is a peer and the node has a transport.
pub handle_put_message-acknowledges :
    (draw : ℕ → ℕ) (max_seen now at : ℕ) (n : ClusterNode) (msg : Message) (s : MemoryStore)
    (originator : NodeInfo)
    → is_seen n msg.message_id ≡ false
    → Storage.put now n.store msg.key msg.payload msg.ttl ≡ ok s
    → find_peer msg.from (get_peers n.gossip) ≡ some originator
    → (n.gossip).has_transport ≡ true
    → at < now + msg.ttl * 1000
    → let r = handle_put_message draw max_seen now n msg in
      (Storage.get at (r.node).store msg.key ≡ some msg.payload)
      × ((rest : List Effect) × (r.effects
            ≡ peer_send (record { target = originator; message = ack_message now n msg }) ∷ rest))
handle_put_message-acknowledges draw max_seen now at n msg s originator new stored known t young =
    let after : ClusterNode = record (marked max_seen now n msg) { store = s } in
    let rest =
      map peer_send (forward_to_enclave draw after.gossip msg) ++ children_effects after none msg in
    let read = get-put now at n.store msg.key msg.key msg.payload msg.ttl stored in
    let acked = ack_originator-known max_seen now n msg s originator known t in
    rw (handle_put_stored draw max_seen now n msg s new stored)
      (read ∙ rw (eq_refl msg.key, lt→ltb at (now + msg.ttl * 1000) young), (rest, rw acked))
