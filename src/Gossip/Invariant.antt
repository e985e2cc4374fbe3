-- ===== src/Gossip/Invariant.antt =====
-- repram-mcp/src/node/gossip.ts: what the handlers keep true of the peers, and what they send.
use repram.Common.{
  ℕ, ◌≡◌, refl, ◌≢◌, inl, inr, true, none, some, List, [], ◌∷◌, ◌++◌, Str, ◌==◌, truthy, arith,
  Bool-cases, Option-cases,
}
use repram.Common.JsMap.{
  IsMap, Each, lookup, insert, erase, lookup-insert, insert-IsMap, Each-insert, Each-lookup, values,
}
use repram.Wire.{NodeInfo, Message, MessageType, ping, pong, sync, with_enclave}
use repram.Gossip.{
  Gossip, add_peer, handle_ping, update_enclave, handle_pong, sync_sends, respond_with_peer_list,
  learn, handle_sync_from, handle_sync, dispatch, count_message, handle_message,
}

-- A peer stands under its own id and names an enclave.
abbrev pub IsKeyed : Str → NodeInfo → Type 0
IsKeyed id p = (p.id ≡ id) × (truthy p.enclave ≡ true)

-- No id twice, every peer under its own id and in an enclave, and the local node not its own peer.
pub record IsValid (s : Gossip) : Type 0 where
  pub distinct : IsMap s.peers
  pub keyed : Each IsKeyed s.peers
  pub foreign : lookup s.local_node.id s.peers ≡ none

pub add_peer-IsValid :
    (s : Gossip) (node : NodeInfo)
    → node.id ≢ s.local_node.id
    → truthy node.enclave ≡ true
    → IsValid s
    → IsValid (add_peer s node)
unfolding add_peer
add_peer-IsValid s node other_id named v = record {
  distinct = insert-IsMap node.id node s.peers v.distinct;
  keyed = Each-insert IsKeyed node.id node s.peers (refl, named) v.keyed;
  foreign = ground (arith, lookup-insert node.id s.local_node.id node s.peers, v.foreign);
}

pub named-with_enclave : (n : NodeInfo) → truthy (with_enclave n).enclave ≡ true
named-with_enclave n = ground arith

pub learn-IsValid :
    (s : Gossip) (node : NodeInfo)
    → node.id ≢ s.local_node.id
    → truthy node.enclave ≡ true
    → IsValid s
    → IsValid (learn s node)
unfolding learn
learn-IsValid s node other_id named v = ground (arith, add_peer-IsValid s node other_id named v)

update_enclave_named :
    (s : Gossip) (id enclave : Str) (existing : NodeInfo)
    → truthy enclave ≡ true
    → lookup id s.peers ≡ some existing
    → IsValid s
    → IsValid (record s { peers = insert id (record existing { enclave = enclave }) s.peers })
update_enclave_named s id enclave existing named found v = record {
  distinct = insert-IsMap id _ s.peers v.distinct;
  keyed =
      Each-insert IsKeyed id _ s.peers ((Each-lookup IsKeyed id s.peers v.keyed found).0, named)
        v.keyed;
  foreign =
      ground
        (arith, lookup-insert id s.local_node.id (record existing { enclave = enclave }) s.peers);
}

update_enclave-IsValid :
    (s : Gossip) (info : NodeInfo) → IsValid s → IsValid (update_enclave s info)
unfolding update_enclave
update_enclave-IsValid s info v = elim (Option-cases (lookup info.id s.peers)) [
  | inl e ↦ rw (e, update_enclave) v
  | inr (existing, e) ↦ elim (Bool-cases (existing.enclave == (with_enclave info).enclave)) [
    | inl same ↦ rw (e, update_enclave, same) v
    | inr moved ↦
        rw (e, update_enclave, moved)
          (update_enclave_named s info.id (with_enclave info).enclave existing
            (named-with_enclave info) e v)
  ]
]

-- Only the peers and the local node count.
IsValid-of_same :
    (s t : Gossip) → t.peers ≡ s.peers → t.local_node ≡ s.local_node → IsValid s → IsValid t
IsValid-of_same s t e f v = record {
  distinct = rw e v.distinct;
  keyed = rw e v.keyed;
  foreign = rw (e, f) v.foreign;
}

handle_pong-IsValid : (s : Gossip) (msg : Message) → IsValid s → IsValid (handle_pong s msg)
unfolding handle_pong
handle_pong-IsValid s msg v =
    let alive : Gossip = record s { peer_failures = erase msg.from s.peer_failures } in
    let alive-valid : IsValid alive = IsValid-of_same s alive refl refl v in
    elim (Option-cases msg.node_info) [
      | inl e ↦ rw (e, handle_pong) alive-valid
      | inr (info, e) ↦ rw (e, handle_pong) (update_enclave-IsValid alive info alive-valid)
    ]

pub sync_sends-same :
    (now : ℕ) (target : NodeInfo) (target_id : Str) (s : Gossip) (nodes : List NodeInfo)
    → ((sync_sends now target target_id s nodes).0.peers ≡ s.peers)
      × ((sync_sends now target target_id s nodes).0.local_node ≡ s.local_node)
      × ((sync_sends now target target_id s nodes).0.has_transport ≡ s.has_transport)
unfolding sync_sends
sync_sends-same now target target_id s [] = (refl, refl, refl)
sync_sends-same now target target_id s (node ∷ nodes) = ground (
  arith,
  sync_sends-same now target target_id s nodes,
  sync_sends-same now target target_id (count_message s) nodes,
)

respond_with_peer_list-IsValid :
    (now : ℕ) (s : Gossip) (id : Str) → IsValid s → IsValid (respond_with_peer_list now s id).0
unfolding respond_with_peer_list
respond_with_peer_list-IsValid now s id v = elim (Option-cases (lookup id s.peers)) [
  | inl e ↦ rw (e, respond_with_peer_list) v
  | inr (target, e) ↦
      let nodes = values s.peers ++ s.local_node ∷ [] in
      let same = sync_sends-same now target id s nodes in
      rw (e, respond_with_peer_list)
        (IsValid-of_same s (sync_sends now target id s nodes).0 same.0 same.1 v)
]

handle_sync-IsValid :
    (now : ℕ) (s : Gossip) (msg : Message) (info : NodeInfo)
    → IsValid s
    → IsValid (handle_sync_from now s msg info).0
unfolding handle_sync_from
handle_sync-IsValid now s msg info v = elim (Bool-cases (info.id == s.local_node.id)) [
  | inl self ↦ rw self v
  | inr other_id ↦
      let other' : info.id ≢ s.local_node.id = ground arith in
      let known = learn-IsValid s (with_enclave info) other' (named-with_enclave info) v in
      elim (Bool-cases (info.id == msg.from)) [
        | inl direct ↦ rw (other_id, direct) (respond_with_peer_list-IsValid now _ msg.from known)
        | inr relayed ↦ rw (other_id, relayed) known
      ]
]

handle_ping-same :
    (now : ℕ) (s : Gossip) (msg : Message)
    → ((handle_ping now s msg).0.peers ≡ s.peers)
      × ((handle_ping now s msg).0.local_node ≡ s.local_node)
unfolding handle_ping
handle_ping-same now s msg = ground arith

dispatch-IsValid :
    (type : MessageType) (now : ℕ) (s : Gossip) (msg : Message)
    → IsValid s
    → IsValid (dispatch type now s msg).gossip
unfolding dispatch
dispatch-IsValid ping now s msg v =
    let same = handle_ping-same now s msg in
    IsValid-of_same s (handle_ping now s msg).0 same.0 same.1 v
dispatch-IsValid pong now s msg v = handle_pong-IsValid s msg v
dispatch-IsValid sync now s msg v = elim (Option-cases msg.node_info) [
  | inl e ↦ rw (e, handle_sync) v
  | inr (info, e) ↦ rw (e, handle_sync) (handle_sync-IsValid now s msg info v)
]
dispatch-IsValid _ now s msg v = v

-- Every message, whatever its type and contents, keeps the peers valid: no id twice, every peer
-- under its own id and with an enclave, and the node never becomes its own peer.
pub handle_message-IsValid :
    (now : ℕ) (s : Gossip) (msg : Message) → IsValid s → IsValid (handle_message now s msg).gossip
unfolding handle_message
handle_message-IsValid now s msg v = dispatch-IsValid msg.type now s msg v
