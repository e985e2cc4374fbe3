-- ===== src/Gossip/Volley.antt =====
-- repram-mcp/src/node/gossip.ts: the answer to a direct SYNC is again a direct SYNC.
use repram.Common.{
  ℕ, zero, suc, ◌≡◌, refl, sym, ap, ◌∙◌, ◌≢◌, inl, inr, true, false, none, some, List, [], ◌∷◌,
  ◌++◌, Str, ◌==◌, eq_refl, arith, Bool-cases, Option-cases,
}
use repram.Common.JsMap.{lookup, values, Each-lookup, lookup-insert_self}
use repram.Wire.{NodeInfo, Message, sync, with_enclave}
use repram.Gossip.{
  Gossip, Send, add_peer, sync_sends, protocol_message, respond_with_peer_list, learn,
  handle_sync_from, handle_sync, dispatch, handle_message, count_message,
}
use repram.Gossip.Invariant.{
  IsValid, IsKeyed, handle_message-IsValid, learn-IsValid, named-with_enclave, sync_sends-same,
}

-- A SYNC of a node about itself.
abbrev pub IsOwnSync : NodeInfo → Message → Type 0
IsOwnSync node msg = (msg.type ≡ sync) × (msg.from ≡ node.id) × (msg.node_info ≡ some node)

sync_sends-last :
    (now : ℕ) (target : NodeInfo) (target_id : Str) (s : Gossip) (local : NodeInfo)
    (nodes : List NodeInfo)
    → s.has_transport ≡ true
    → s.local_node ≡ local
    → local.id ≢ target_id
    → (front : List Send) × (x : Send) × ((sync_sends now target target_id s
          (nodes ++ local ∷ [])).1
        ≡ front ++ x ∷ [])
      × (x.target ≡ target)
      × IsOwnSync local x.message
unfolding sync_sends
sync_sends-last now target target_id s local [] t l h = (
  [],
  record { target = target; message = protocol_message now s sync [] (some local) },
  ground arith,
  refl,
  (refl, ap (λ n. n.id) l, refl),
)
sync_sends-last now target target_id s local (node ∷ nodes) t l h =
    elim (Bool-cases (node.id == target_id)) [
      | inl skipped ↦ rw skipped (sync_sends-last now target target_id s local nodes t l h)
      | inr told ↦
          let (front, x, e, at, own) =
            sync_sends-last now target target_id (count_message s) local nodes t l h in
          (
            record { target = target; message = protocol_message now s sync [] (some node) }
                ∷ front,
            x,
            ground (arith, e),
            at,
            own,
          )
    ]

learn-knows :
    (s : Gossip) (node : NodeInfo) → (p : NodeInfo) × (lookup node.id (learn s node).peers ≡ some p)
unfolding learn add_peer
learn-knows s node = elim (Option-cases (lookup node.id s.peers)) [
  | inl e ↦ (node, rw (e, learn) (lookup-insert_self node.id node s.peers))
  | inr (p, e) ↦ elim (Bool-cases (p.enclave == node.enclave)) [
    | inl same ↦ (p, rw (e, learn, same) e)
    | inr moved ↦ (node, rw (e, learn, moved) (lookup-insert_self node.id node s.peers))
  ]
]

learn-same :
    (s : Gossip) (node : NodeInfo)
    → ((learn s node).local_node ≡ s.local_node) × ((learn s node).has_transport ≡ s.has_transport)
unfolding learn add_peer
learn-same s node = ground arith

-- The answer of `b` to a direct SYNC of `a` ends with a direct SYNC of `b` to `a`.
respond-own :
    (now : ℕ) (b : Gossip) (id : Str) (p : NodeInfo)
    → IsValid b
    → b.has_transport ≡ true
    → b.local_node.id ≢ id
    → lookup id b.peers ≡ some p
    → (front : List Send) × (x : Send) × ((respond_with_peer_list now b id).1 ≡ front ++ x ∷ [])
      × (x.target.id ≡ id)
      × IsOwnSync b.local_node x.message
unfolding respond_with_peer_list
respond-own now b id p v t h e =
    let (front, x, sent, at, own) =
      sync_sends-last now p id b b.local_node (values b.peers) t refl h in
    (
      front,
      x,
      rw (e, respond_with_peer_list) sent,
      ap (λ n. n.id) at ∙ (Each-lookup IsKeyed id b.peers v.keyed e).0,
      own,
    )

handle_sync_from-own :
    (now : ℕ) (b : Gossip) (msg : Message) (node : NodeInfo)
    → IsValid b
    → b.has_transport ≡ true
    → node.id ≢ b.local_node.id
    → msg.from ≡ node.id
    → (front : List Send) × (x : Send) × ((handle_sync_from now b msg node).1 ≡ front ++ x ∷ [])
      × (x.target.id ≡ node.id)
      × IsOwnSync b.local_node x.message
unfolding handle_sync_from
handle_sync_from-own now b msg node v t apart from_node =
    let named = with_enclave node in
    let b' = learn b named in
    let (same_node, same_transport) = learn-same b named in
    let (p, known) = learn-knows b named in
    let v' = learn-IsValid b named apart (named-with_enclave node) v in
    let other_id : (node.id == b.local_node.id) ≡ false = ground arith in
    let direct : (node.id == node.id) ≡ true = eq_refl node.id in
    let (front, x, sent, at, own) =
      respond-own now b' node.id p v' (same_transport ∙ t) (rw same_node (λ e. apart (sym e)))
        known in
    (front, x, rw (other_id, from_node, direct) sent, at, rw same_node at own)

respond-same :
    (now : ℕ) (b : Gossip) (id : Str)
    → ((respond_with_peer_list now b id).0.local_node ≡ b.local_node)
      × ((respond_with_peer_list now b id).0.has_transport ≡ b.has_transport)
unfolding respond_with_peer_list
respond-same now b id = elim (Option-cases (lookup id b.peers)) [
  | inl e ↦ rw (e, respond_with_peer_list) (refl, refl)
  | inr (p, e) ↦
      let same = sync_sends-same now p id b (values b.peers ++ b.local_node ∷ []) in
      rw (e, respond_with_peer_list) (same.1, same.2)
]

handle_sync_from-same :
    (now : ℕ) (b : Gossip) (msg : Message) (node : NodeInfo)
    → ((handle_sync_from now b msg node).0.local_node ≡ b.local_node)
      × ((handle_sync_from now b msg node).0.has_transport ≡ b.has_transport)
unfolding handle_sync_from
handle_sync_from-same now b msg node =
    let learned = learn b (with_enclave node) in
    ground (arith, learn-same b (with_enclave node), respond-same now learned msg.from)

handle_message-own :
    (now : ℕ) (b : Gossip) (msg : Message) (node : NodeInfo)
    → IsOwnSync node msg
    → handle_message now b msg ≡ record {
      gossip = (handle_sync_from now b msg node).0;
      sends = (handle_sync_from now b msg node).1;
      application = none;
    }
unfolding handle_message dispatch handle_sync
handle_message-own now b msg node (type, _, info) = rw (type, dispatch, info, handle_sync)

-- The exchange after so many rounds: `b` receives the message, and one of its answers goes to `a`,
-- which receives it in the next round.
abbrev pub InFlight : ℕ → ℕ → Gossip → Gossip → Message → Type 0
InFlight zero now a b msg = IsOwnSync a.local_node msg
InFlight (suc rounds) now a b msg =
    (front : List Send) × (x : Send) × ((handle_message now b msg).sends ≡ front ++ x ∷ [])
    × (x.target.id ≡ a.local_node.id)
    × InFlight rounds now (handle_message now b msg).gossip a x.message

-- Two nodes never stop: once a direct SYNC is on its way from one node to another, then after any
-- number of rounds, in each of which the receiver handles a message and one of its answers is
-- delivered, there is again a direct SYNC on its way. The guard on direct SYNCs does not end it.
pub handle_message_volley :
    (rounds now : ℕ) (a b : Gossip) (msg : Message)
    → IsValid a
    → IsValid b
    → a.has_transport ≡ true
    → b.has_transport ≡ true
    → a.local_node.id ≢ b.local_node.id
    → IsOwnSync a.local_node msg
    → InFlight rounds now a b msg
handle_message_volley zero now a b msg va vb ta tb apart own = own
handle_message_volley (suc rounds) now a b msg va vb ta tb apart own =
    let handled = handle_message-own now b msg a.local_node own in
    let (front, x, sent, at, own') =
      handle_sync_from-own now b msg a.local_node vb tb apart own.1 in
    let (same_node, same_transport) = handle_sync_from-same now b msg a.local_node in
    let b' = (handle_message now b msg).gossip in
    let same_node' : b'.local_node ≡ b.local_node = rw handled same_node in
    let same_transport' : b'.has_transport ≡ b.has_transport = rw handled same_transport in
    (
      front,
      x,
      rw handled sent,
      at,
      handle_message_volley rounds now b' a x.message (handle_message-IsValid now b msg vb) va
          (same_transport' ∙ tb) ta (rw same_node' (λ e. apart (sym e))) (rw same_node' own'),
    )
