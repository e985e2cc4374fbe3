-- ===== src/Gossip/Broadcast/Reach.antt =====
-- repram-mcp/src/node/gossip.ts: the peers that a broadcast and a forward reach.
use mathlib.Core.List.{Perm}
use repram.Common.{
  ℕ, suc, ◌≤◌, ◌<◌, ◌≡◌, refl, ap, ◌⊎◌, inl, inr, true, some, List, [], ◌∷◌, ◌++◌, Str, leb, leb→le,
  leb-false→lt, Bool-cases, length, min, filter_by, ◌==◌,
}
use repram.Common.JsMap.{values}
use repram.Wire.{NodeInfo, Message}
use repram.Fanout.{fanout_size, select_random_peers, candidates}
use repram.Fanout.Selection.{select_random_peers-perm}
use repram.Gossip.{Gossip, Send, get_replication_peers}
use repram.Gossip.Broadcast.{
  fanout_threshold, send_all, mark, broadcast_targets, broadcast_to_enclave, forward_to_enclave,
}

-- The targets are some of the peers, each at most once: with a rest they rearrange them.
abbrev pub PartOf : List NodeInfo → List NodeInfo → Type 0
PartOf targets peers = (rest : List NodeInfo) × Perm (targets ++ rest) peers

length-send_all : (msg : Message) (ps : List NodeInfo) → length (send_all msg ps) ≡ length ps
length-send_all msg [] = refl
length-send_all msg (p ∷ ps) = ap suc (length-send_all msg ps)

-- How a list of sends covers a group: all of it when the group is small, and otherwise a random
-- part of those with an id other than the one excluded, of the size of the fanout or all of them.
abbrev pub Covers : Message → List NodeInfo → Str → List Send → Type 0
Covers msg peers skip_id sends =
    ((length peers ≤ fanout_threshold) × (sends ≡ send_all msg peers))
    ⊎ ((fanout_threshold < length peers)
        × ((targets : List NodeInfo) × (sends ≡ send_all msg targets)
            × PartOf targets (candidates peers skip_id)
            × (length targets
                ≡ min (fanout_size (length peers)) (length (candidates peers skip_id)))))

Covers-targets :
    (draw : ℕ → ℕ) (s : Gossip) (msg : Message)
    → Covers msg (get_replication_peers s) [] (send_all msg (broadcast_targets draw s))
unfolding broadcast_targets
Covers-targets draw s msg = elim (Bool-cases (leb (length peers) fanout_threshold)) [
  | inl small ↦ inl (leb→le (length peers) fanout_threshold small, rw small)
  | inr large ↦
      let (count, part) = select_random_peers-perm draw peers (fanout_size (length peers)) [] in
      inr (
        leb-false→lt (length peers) fanout_threshold large,
        (select_random_peers draw peers (fanout_size (length peers)) [], rw large, part, count),
      )
]
  where
    peers : List NodeInfo
    peers = get_replication_peers s

-- The known peers whose enclave is the node's own.
abbrev pub enclave_peers : Gossip → List NodeInfo
enclave_peers s = filter_by (λ p. p.enclave == (s.local_node).enclave) (values s.peers)

-- A broadcast with a transport never throws, marks the message as seen, and covers the peers whose
-- enclave is the node's own: it goes to every one of them once if there are at most 10, and
-- otherwise to a random part of them, of the size of the fanout, and to nobody else.
pub broadcast_to_enclave-Covers :
    (draw : ℕ → ℕ) (max_seen now : ℕ) (s : Gossip) (msg : Message)
    → s.has_transport ≡ true
    → (sends : List Send) × (broadcast_to_enclave draw max_seen now s msg
        ≡ some ((mark max_seen now s msg.message_id).0, sends))
      × Covers msg (enclave_peers s) [] sends
unfolding broadcast_to_enclave
broadcast_to_enclave-Covers draw max_seen now s msg t =
    let s' = (mark max_seen now s msg.message_id).0 in
    (
      send_all msg (broadcast_targets draw s'),
      rw t,
      unfold mark get_replication_peers in Covers-targets draw s' msg,
    )

-- With a transport, a forward sends nothing in a small enclave, where the originator reached
-- everyone; in a larger one it goes to a random part of the enclave without the sender, of the size
-- of the fanout.
pub forward_to_enclave_lem :
    (draw : ℕ → ℕ) (s : Gossip) (msg : Message)
    → s.has_transport ≡ true
    → ((length (get_replication_peers s) ≤ fanout_threshold) × (forward_to_enclave draw s msg ≡ []))
      ⊎ ((targets : List NodeInfo) × (forward_to_enclave draw s msg ≡ send_all msg targets)
          × PartOf targets (candidates (get_replication_peers s) msg.from)
          × (length targets
              ≡ min
                  (fanout_size (length (get_replication_peers s)))
                  (length (candidates (get_replication_peers s) msg.from))))
unfolding forward_to_enclave
forward_to_enclave_lem draw s msg h = elim (Bool-cases (leb (length peers) fanout_threshold)) [
  | inl small ↦ inl (leb→le (length peers) fanout_threshold small, rw small refl)
  | inr large ↦
      let (count, part) =
        select_random_peers-perm draw peers (fanout_size (length peers)) msg.from in
      inr (
        select_random_peers draw peers (fanout_size (length peers)) msg.from,
        rw (large, h) refl,
        part,
        count,
      )
]
  where
    peers : List NodeInfo
    peers = get_replication_peers s
