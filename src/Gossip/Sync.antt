-- ===== src/Gossip/Sync.antt =====
-- repram-mcp/src/node/gossip.ts: whom a node answers, and the exchange of SYNC messages.
use repram.Common.{
  ℕ, ◌≡◌, refl, ◌≢◌, ◌⊎◌, inl, inr, some, List, [], ◌∷◌, Str, ◌==◌, eq_iff, arith, Bool-cases,
  Option-cases, All, All-append,
}
use repram.Common.JsMap.{lookup, Each-lookup}
use repram.Wire.{NodeInfo, Message, MessageType, ping, pong, sync, with_enclave}
use repram.Gossip.{
  Gossip, Send, handle_ping, sync_sends, protocol_message, respond_with_peer_list, learn,
  handle_sync_from, handle_sync, dispatch, handle_message, count_message, send_if_set,
}
use repram.Gossip.Invariant.{IsValid, IsKeyed, learn-IsValid, named-with_enclave}

-- An answer: a PONG to the sender, or a SYNC to the sender about another node.
abbrev pub IsAnswer : Str → Send → Type 0
IsAnswer from x =
    (x.target.id ≡ from)
    × ((x.message.type ≡ pong)
        ⊎ ((x.message.type ≡ sync)
            × ((n : NodeInfo) × (x.message.node_info ≡ some n) × (n.id ≢ from))))

send_if_set-All {κ} :
    (P : Send → Type κ) (s : Gossip) (target : NodeInfo) (msg : Message)
    → P (record { target = target; message = msg })
    → All P (send_if_set s target msg)
send_if_set-All P s target msg h = elim (Bool-cases s.has_transport) [
  | inl e ↦ rw e (h, tt)
  | inr e ↦ rw e tt
]

sync_sends-answers :
    (now : ℕ) (target : NodeInfo) (target_id : Str) (s : Gossip) (nodes : List NodeInfo)
    → target.id ≡ target_id
    → All (IsAnswer target_id) (sync_sends now target target_id s nodes).1
unfolding sync_sends
sync_sends-answers now target target_id s [] h = tt
sync_sends-answers now target target_id s (node ∷ nodes) h =
    elim (Bool-cases (node.id == target_id)) [
      | inl skipped ↦ rw skipped (sync_sends-answers now target target_id s nodes h)
      | inr told ↦
          let rest = sync_sends-answers now target target_id (count_message s) nodes h in
          let other_id : node.id ≢ target_id = ground arith in
          rw told (
            All-append (IsAnswer target_id) _ _
              (send_if_set-All (IsAnswer target_id) s target
                (protocol_message now s sync [] (some node))
                (h, inr (refl, (node, refl, other_id))))
              rest)
    ]

respond_with_peer_list-answers :
    (now : ℕ) (s : Gossip) (id : Str)
    → IsValid s
    → All (IsAnswer id) (respond_with_peer_list now s id).1
unfolding respond_with_peer_list
respond_with_peer_list-answers now s id v = elim (Option-cases (lookup id s.peers)) [
  | inl e ↦ rw (e, respond_with_peer_list) tt
  | inr (target, e) ↦
      rw (e, respond_with_peer_list)
        (sync_sends-answers now target id s _ (Each-lookup IsKeyed id s.peers v.keyed e).0)
]

handle_sync_from-answers :
    (now : ℕ) (s : Gossip) (msg : Message) (info : NodeInfo)
    → IsValid s
    → All (IsAnswer msg.from) (handle_sync_from now s msg info).1
      × ((info.id ≡ msg.from) ⊎ ((handle_sync_from now s msg info).1 ≡ []))
unfolding handle_sync_from
handle_sync_from-answers now s msg info v = elim (Bool-cases (info.id == s.local_node.id)) [
  | inl self ↦ rw self (tt, inr refl)
  | inr other_id ↦ elim (Bool-cases (info.id == msg.from)) [
    | inl direct ↦
        let from_info : info.id ≡ msg.from = (eq_iff info.id msg.from).0 direct in
        let fresh : info.id ≢ s.local_node.id = ground arith in
        rw (other_id, direct)
          (
            respond_with_peer_list-answers now (learn s (with_enclave info)) msg.from
                (learn-IsValid s (with_enclave info) fresh (named-with_enclave info) v),
            inl from_info,
          )
    | inr relayed ↦ rw (other_id, relayed) (tt, inr refl)
  ]
]

handle_ping-answers :
    (now : ℕ) (s : Gossip) (msg : Message)
    → IsValid s
    → All (IsAnswer msg.from) (handle_ping now s msg).1
unfolding handle_ping
handle_ping-answers now s msg v = elim (Option-cases (lookup msg.from s.peers)) [
  | inl e ↦ rw (e, handle_ping) tt
  | inr (peer, e) ↦
      rw (e, handle_ping)
        (send_if_set-All (IsAnswer msg.from) s peer
          (protocol_message now s pong msg.from (some s.local_node))
          ((Each-lookup IsKeyed msg.from s.peers v.keyed e).0, inl refl))
]

dispatch-answers :
    (type : MessageType) (now : ℕ) (s : Gossip) (msg : Message)
    → IsValid s
    → All (IsAnswer msg.from) (dispatch type now s msg).sends
unfolding dispatch
dispatch-answers ping now s msg v = handle_ping-answers now s msg v
dispatch-answers sync now s msg v = elim (Option-cases msg.node_info) [
  | inl e ↦ rw (e, handle_sync) tt
  | inr (info, e) ↦ rw (e, handle_sync) (handle_sync_from-answers now s msg info v).0
]
dispatch-answers _ now s msg v = tt

-- The message describes its own sender.
abbrev pub IsDirect : Message → Type 0
IsDirect msg = (info : NodeInfo) × (msg.node_info ≡ some info) × (info.id ≡ msg.from)

-- When there is an answer at all.
abbrev pub Provoked : MessageType → Message → List Send → Type 0
Provoked type msg sends = (sends ≡ []) ⊎ ((type ≡ ping) ⊎ ((type ≡ sync) × IsDirect msg))

dispatch-Provoked :
    (type : MessageType) (now : ℕ) (s : Gossip) (msg : Message)
    → IsValid s
    → Provoked type msg (dispatch type now s msg).sends
unfolding dispatch
dispatch-Provoked ping now s msg v = inr (inl refl)
dispatch-Provoked sync now s msg v = elim (Option-cases msg.node_info) [
  | inl e ↦ inl (rw (e, handle_sync))
  | inr (info, e) ↦ elim (handle_sync_from-answers now s msg info v).1 [
    | inl direct ↦ inr (inr (refl, (info, e, direct)))
    | inr silent ↦ inl (rw (e, handle_sync) silent)
  ]
]
dispatch-Provoked _ now s msg v = inl refl

-- Whatever message comes in, the protocol answers its sender alone, with a PONG or with SYNCs
-- about nodes other than the sender; and only a PING, or a SYNC in which the sender describes
-- itself, is answered at all. In particular no relayed SYNC is.
pub handle_message-answers :
    (now : ℕ) (s : Gossip) (msg : Message)
    → IsValid s
    → All (IsAnswer msg.from) (handle_message now s msg).sends
      × Provoked msg.type msg (handle_message now s msg).sends
unfolding handle_message
handle_message-answers now s msg v =
    (dispatch-answers msg.type now s msg v, dispatch-Provoked msg.type now s msg v)
