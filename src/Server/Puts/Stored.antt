-- ===== src/Server/Puts/Stored.antt =====
-- repram-mcp/src/node/server.ts: a value that the PUT handler accepts, as the GET handler serves it.
use repram.Common.{
  ℕ, ◌≡◌, refl, ap, sym, false, Option, none, some, Str, if◌then◌else◌, arith, inl, inr, ◌⊎◌,
}
use repram.Common.JsMap.{insert}
use repram.Wire.{Message}
use repram.Gossip.{count_message}
use repram.Storage
use repram.Storage.{Buffer, Entry, Result, ok, store_full, MemoryStore}
use repram.Cluster.{
  ClusterNode, write, WriteOperation, replicate, quorum_size, put_message, send_put,
  broadcast_effects,
}
use repram.Server.{body}
use repram.Server.Puts.{TtlBounds, requested_ttl, clamp_ttl, put_handler}

broadcast_effects-store :
    (draw : ℕ → ℕ) (max_seen now : ℕ) (n : ClusterNode) (msg : Message)
    → (broadcast_effects draw max_seen now n msg).0.store ≡ n.store
unfolding broadcast_effects
broadcast_effects-store draw max_seen now n msg = ground arith

send_put-store :
    (draw : ℕ → ℕ) (max_seen now : ℕ) (n : ClusterNode) (msg : Message)
    → (send_put draw max_seen now n msg).0.store ≡ n.store
unfolding send_put
send_put-store draw max_seen now n msg =
    ground (arith, broadcast_effects-store draw max_seen now n msg)

replicate-store :
    (draw : ℕ → ℕ) (max_seen now caller quorum_needed : ℕ) (n : ClusterNode) (msg : Message)
    → (replicate draw max_seen now caller quorum_needed n msg).0.store ≡ n.store
unfolding replicate
replicate-store draw max_seen now caller quorum_needed n msg =
    let operation : WriteOperation = record {
      caller = caller;
      confirmations = 1;
      quorum_needed = quorum_needed;
    } in
    ground (
      arith,
      send_put-store draw max_seen now
          (record n { pending_writes = insert msg.message_id operation n.pending_writes }) msg,
    )

put-cases : (r : Result MemoryStore) → (r ≡ store_full) ⊎ ((s : MemoryStore) × (r ≡ ok s))
put-cases (ok s) = inr (s, refl)
put-cases store_full = inl refl

-- A write that does not throw leaves the node with the store that `put` returns.
pub write-store :
    (draw : ℕ → ℕ) (max_seen now caller : ℕ) (n : ClusterNode) (key : Str) (content : Buffer)
    (ttl : ℕ)
    → (write draw max_seen now caller n key content ttl).threw ≡ false
    → Storage.put now n.store key content ttl
      ≡ ok (write draw max_seen now caller n key content ttl).node.store
unfolding write
write-store draw max_seen now caller n key content ttl h =
    elim (put-cases (Storage.put now n.store key content ttl)) [
      | inl full ↦ ground (arith, full)
      | inr (s, e) ↦
          let stored : ClusterNode = record n { gossip = count_message n.gossip; store = s } in
          let msg = put_message now n key content ttl in
          rw (e, write)
            (ap ok (sym (replicate-store draw max_seen now caller (quorum_size n) stored msg)))
    ]

pub handler-fields :
    (draw : ℕ → ℕ) (max_seen now caller : ℕ) (bounds : TtlBounds) (parse_int : Str → Option ℕ)
    (n : ClusterNode) (key : Str) (content : Buffer) (query header : Option Str)
    → let ttl = clamp_ttl bounds (requested_ttl parse_int query header) in
      let handled =
        put_handler draw max_seen now caller bounds parse_int n key (body content) query header in
      (handled.node ≡ (write draw max_seen now caller n key content ttl).node)
      × (handled.status
          ≡ (if (write draw max_seen now caller n key content ttl).threw then some 507 else none))
unfolding put_handler
handler-fields draw max_seen now caller bounds parse_int n key content query header = (refl, refl)
