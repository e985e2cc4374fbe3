-- ===== src/Cluster/Writes.antt =====
-- repram-mcp/src/node/cluster.ts: how a write that waits for acknowledgements is settled.
use repram.Common.{
  ℕ, ◌+◌, ◌≤◌, ◌<◌, ◌≡◌, refl, ◌∙◌, inl, inr, Option, none, some, List, [], ◌∷◌, ◌++◌, Str, arith,
  leb, leb→le, leb-false→lt, if◌then◌else◌, Bool-cases, length, All,
}
use repram.Common.JsMap.{lookup, lookup-erase, lookup-insert_self}
use repram.Wire.{Message}
use repram.Cluster.{
  ClusterNode, WriteOperation, Effect, settle, created, confirm, handle_ack_message, open_route,
  on_write_timeout,
}

-- The ACKs of one message come in, one after the other.
unfoldable pub acknowledge : ClusterNode → List Message → ClusterNode × List Effect
acknowledge n [] = (n, [])
acknowledge n (msg ∷ msgs) =
    let (n', effects) = handle_ack_message n msg in
    let (n'', more) = acknowledge n' msgs in (n'', effects ++ more)

-- ACKs of the message, whoever sent them.
abbrev pub AcksOf : Str → List Message → Type 0
AcksOf id msgs = All (λ m. m.message_id ≡ id) msgs

confirm-waits :
    (n : ClusterNode) (id : Str) (op : WriteOperation)
    → lookup id n.pending_writes ≡ some op
    → op.confirmations + 1 < op.quorum_needed
    → ((confirm n id).1 ≡ [])
      × (lookup id (confirm n id).0.pending_writes
          ≡ some (record op { confirmations = op.confirmations + 1 }))
      × ((confirm n id).0.tree ≡ n.tree)
unfolding confirm
confirm-waits n id op e h =
    let more : WriteOperation = record op { confirmations = op.confirmations + 1 } in
    ground (arith, lookup-insert_self id more n.pending_writes)

confirm-reaches :
    (n : ClusterNode) (id : Str) (op : WriteOperation)
    → lookup id n.pending_writes ≡ some op
    → op.quorum_needed ≤ op.confirmations + 1
    → ((confirm n id).1 ≡ settle op.caller created ∷ [])
      × (lookup id (confirm n id).0.pending_writes ≡ none)
      × ((confirm n id).0.tree ≡ n.tree)
unfolding confirm
confirm-reaches n id op e h = ground (arith, lookup-erase id id n.pending_writes)

confirm-unknown :
    (n : ClusterNode) (id : Str) → lookup id n.pending_writes ≡ none → confirm n id ≡ (n, [])
unfolding confirm
confirm-unknown n id e = rw (e, confirm)

handle_ack-confirm :
    (n : ClusterNode) (msg : Message) (id : Str)
    → msg.message_id ≡ id
    → open_route n.tree id ≡ none
    → handle_ack_message n msg ≡ confirm n id
unfolding handle_ack_message
handle_ack-confirm n msg id e r = ground (arith, e, r)

acknowledge-unknown :
    (n : ClusterNode) (id : Str) (msgs : List Message)
    → lookup id n.pending_writes ≡ none
    → open_route n.tree id ≡ none
    → AcksOf id msgs
    → acknowledge n msgs ≡ (n, [])
unfolding acknowledge
acknowledge-unknown n id [] e r a = refl
acknowledge-unknown n id (msg ∷ msgs) e r a =
    rw (handle_ack-confirm n msg id a.0 r, confirm-unknown n id e)
      (acknowledge-unknown n id msgs e r a.1)

-- The effects of so many ACKs on a waiting write, and what is left of it.
abbrev pub settled_after : WriteOperation → ℕ → List Effect
settled_after op k =
    if leb op.quorum_needed (op.confirmations + k) then settle op.caller created ∷ [] else []

abbrev pub left_after : WriteOperation → ℕ → Option WriteOperation
left_after op k =
    if leb op.quorum_needed (op.confirmations + k)
    then none
    else some (record op { confirmations = op.confirmations + k })

pub acknowledge-waiting :
    (n : ClusterNode) (id : Str) (op : WriteOperation) (msgs : List Message)
    → lookup id n.pending_writes ≡ some op
    → op.confirmations < op.quorum_needed
    → open_route n.tree id ≡ none
    → AcksOf id msgs
    → ((acknowledge n msgs).1 ≡ settled_after op (length msgs))
      × (lookup id (acknowledge n msgs).0.pending_writes ≡ left_after op (length msgs))
      × ((acknowledge n msgs).0.tree ≡ n.tree)
unfolding acknowledge
acknowledge-waiting n id op [] e h r a = ground arith
acknowledge-waiting n id op (msg ∷ msgs) e h r a =
    elim (Bool-cases (leb op.quorum_needed (op.confirmations + 1))) [
      | inl enough ↦
          let (settled, gone, same_tree) = confirm-reaches n id op e (leb→le _ _ enough) in
          let rest = acknowledge-unknown (confirm n id).0 id msgs gone (rw same_tree r) a.1 in
          rw (step, rest) (rw settled (ground arith), gone ∙ ground arith, same_tree)
      | inr short ↦
          let more : WriteOperation = record op { confirmations = op.confirmations + 1 } in
          let below = leb-false→lt _ _ short in
          let (silent, waits, same_tree) = confirm-waits n id op e below in
          let (settled, left, tree') =
            acknowledge-waiting (confirm n id).0 id more msgs waits below (rw same_tree r) a.1 in
          rw step (rw silent (settled ∙ ground arith), left ∙ ground arith, tree' ∙ same_tree)
    ]
  where
    step : handle_ack_message n msg ≡ confirm n id
    step = handle_ack-confirm n msg id a.0 r

-- The timer of a write runs out. It is cleared when the write is settled, so it only finds a write
-- that still waits.
unfoldable pub fire : ClusterNode → Str → ClusterNode × List Effect
fire n id = elim (lookup id n.pending_writes) [
  | none ↦ (n, [])
  | some op ↦ on_write_timeout n id op.caller
]

-- ACKs before the timeout, the timeout, and ACKs after it.
unfoldable pub lifetime : ClusterNode → Str → List Message → List Message → List Effect
lifetime n id early late =
    let (n', before) = acknowledge n early in
    let (n'', timeout) = fire n' id in before ++ (timeout ++ (acknowledge n'' late).1)
