-- ===== src/Cluster/Receive/Puts.antt =====
-- repram-mcp/src/node/cluster.ts: a replicated PUT that is delivered, and delivered again while the
-- dedup cache holds its id.
use repram.Common.{
  ℕ, ◌+◌, ◌≤◌, ◌<◌, length, ◌≡◌, refl, ◌⊎◌, inl, inr, Bool, true, false, none, List, [], ◌++◌, Str,
  map,
}
use repram.Common.JsMap.{has, size, IsMap}
use repram.Wire.{Message}
use repram.Storage
use repram.Storage.{MemoryStore, Result, ok, store_full}
use repram.Seen.{mark_seen, seen_message_ttl_ms}
use repram.Seen.Window.{Event, run, AllBefore, has-run}
use repram.Seen.Dedup.{mark_seen_twice, has-mark_seen}
use repram.Gossip.{Gossip}
use repram.Gossip.Broadcast.{mark, forward_to_enclave}
use repram.Cluster.{ClusterNode, Effect, peer_send}
use repram.Cluster.Receive.{handle_put_message, ack_originator, children_effects}

Result-cases {ℓ} : {A : Type ℓ} (r : Result A) → (r ≡ store_full) ⊎ ((a : A) × (r ≡ ok a))
Result-cases store_full = inl refl
Result-cases (ok a) = inr (a, refl)

-- The node with the message marked as seen.
abbrev pub marked : ℕ → ℕ → ClusterNode → Message → ClusterNode
marked max_seen now n msg = record n { gossip = (mark max_seen now n.gossip msg.message_id).0 }

abbrev pub is_seen : ClusterNode → Str → Bool
is_seen n id = has id (n.gossip).seen_messages

pub is_seen-marked :
    (max_seen now : ℕ) (n : ClusterNode) (msg : Message)
    → is_seen (marked max_seen now n msg) msg.message_id ≡ true
unfolding mark
is_seen-marked max_seen now n msg =
    has-mark_seen max_seen now (n.gossip).seen_messages msg.message_id

pub handle_put_duplicate :
    (draw : ℕ → ℕ) (max_seen now : ℕ) (n : ClusterNode) (msg : Message)
    → is_seen n msg.message_id ≡ true
    → handle_put_message draw max_seen now n msg ≡ record { node = n; effects = []; threw = false }
unfolding handle_put_message mark mark_seen
handle_put_duplicate draw max_seen now n msg h = rw h

pub mark-duplicate :
    (max_seen now : ℕ) (g : Gossip) (id : Str) → (mark max_seen now g id).1 ≡ has id g.seen_messages
unfolding mark
mark-duplicate max_seen now g id = (mark_seen_twice max_seen now now g.seen_messages id).0

pub handle_put_full :
    (draw : ℕ → ℕ) (max_seen now : ℕ) (n : ClusterNode) (msg : Message)
    → is_seen n msg.message_id ≡ false
    → Storage.put now n.store msg.key msg.payload msg.ttl ≡ store_full
    → handle_put_message draw max_seen now n msg
      ≡ record { node = marked max_seen now n msg; effects = []; threw = true }
unfolding handle_put_message
handle_put_full draw max_seen now n msg new full =
    rw (mark-duplicate max_seen now n.gossip msg.message_id, new, full)

-- What a PUT that is stored sends.
abbrev pub put_effects : (ℕ → ℕ) → ℕ → ClusterNode → Message → List Effect
put_effects draw now n msg =
    ack_originator now n msg
    ++ (map peer_send (forward_to_enclave draw n.gossip msg) ++ children_effects n none msg)

pub handle_put_stored :
    (draw : ℕ → ℕ) (max_seen now : ℕ) (n : ClusterNode) (msg : Message) (s : MemoryStore)
    → is_seen n msg.message_id ≡ false
    → Storage.put now n.store msg.key msg.payload msg.ttl ≡ ok s
    → handle_put_message draw max_seen now n msg ≡ (
        let stored : ClusterNode = record (marked max_seen now n msg) { store = s } in
        record { node = stored; effects = put_effects draw now stored msg; threw = false })
unfolding handle_put_message
handle_put_stored draw max_seen now n msg s new stored =
    rw (mark-duplicate max_seen now n.gossip msg.message_id, new, stored)

pub seen-handle_put :
    (draw : ℕ → ℕ) (max_seen now : ℕ) (n : ClusterNode) (msg : Message)
    → is_seen n msg.message_id ≡ false
    → ((handle_put_message draw max_seen now n msg).node.gossip).seen_messages
      ≡ (mark_seen max_seen now (n.gossip).seen_messages msg.message_id).0
unfolding mark
seen-handle_put draw max_seen now n msg new =
    elim (Result-cases (Storage.put now n.store msg.key msg.payload msg.ttl)) [
      | inl full ↦ rw (handle_put_full draw max_seen now n msg new full) refl
      | inr (s, stored) ↦ rw (handle_put_stored draw max_seen now n msg s new stored) refl
    ]

-- A PUT that is new when it is delivered and is delivered again less than a minute later does nothing
-- the second time, whatever the first delivery did, also if it threw, and whatever happened to the
-- node in between, where its dedup cache saw other marks and cleanups, too few to fill it: the node
-- is left as it is and nothing is sent.
pub handle_put_message_twice :
    (draw draw' : ℕ → ℕ) (max_seen now at : ℕ) (n later : ClusterNode) (msg : Message)
    (es : List (ℕ × Event))
    → is_seen n msg.message_id ≡ false
    → IsMap (n.gossip).seen_messages
    → size (n.gossip).seen_messages + 1 + length es ≤ max_seen
    → AllBefore es at
    → at < now + seen_message_ttl_ms
    → (later.gossip).seen_messages
      ≡ run max_seen es ((handle_put_message draw max_seen now n msg).node.gossip).seen_messages
    → handle_put_message draw' max_seen at later msg
      ≡ record { node = later; effects = []; threw = false }
handle_put_message_twice draw draw' max_seen now at n later msg es new m fits before young same =
    let id = msg.message_id in
    let seen = (n.gossip).seen_messages in
    let marked_first = seen-handle_put draw max_seen now n msg new in
    let held = has-run max_seen now at seen id es m new fits before young in
    handle_put_duplicate draw' max_seen at later msg (rw (same, marked_first) held)
