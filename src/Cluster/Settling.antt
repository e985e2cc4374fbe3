-- ===== src/Cluster/Settling.antt =====
-- repram-mcp/src/node/cluster.ts: the promises of a node's writes, over a history of its calls.
use repram.Common.{
  ℕ, zero, suc, ◌+◌, ◌*◌, ◌≤◌, ◌<◌, ◌≡◌, refl, ap, ◌∙◌, sym, ◌⊎◌, inl, inr, Bool, true, false,
  Option, none, some, List, [], ◌∷◌, ◌++◌, Str, ◌==◌, eq_refl, arith, leb, nat_eq, if◌then◌else◌,
  Bool-cases, Option-cases, map, length,
}
use repram.Common.JsMap.{
  JsMap, IsMap, lookup, insert, erase, total, total-insert, measure_at, insert-IsMap, erase-IsMap,
}
use repram.Storage
use repram.Storage.{Buffer, MemoryStore, Result, ok, store_full}
use repram.Wire.{Message}
use repram.Gossip.{count_message, Send}
use repram.Cluster.{
  ClusterNode, WriteOperation, WriteStatus, Effect, settle, peer_send, conn_send, created, accepted,
  Outcome, confirm, handle_ack_message, open_route, on_write_timeout, broadcast_effects, send_put,
  replicate, write, put_message, quorum_size, stop,
}
use repram.Gossip.Broadcast.{broadcast_to_enclave}
use repram.Cluster.Writes.{fire}
pub mod Histories

-- 1 for the caller and 0 for all others.
abbrev pub is_caller : ℕ → ℕ → ℕ
is_caller c d = if nat_eq c d then 1 else 0

abbrev pub settles_one : ℕ → Effect → ℕ
settles_one c (settle d status) = is_caller c d
settles_one c _ = 0

-- How often the promise of a caller is settled.
unfoldable pub settles : ℕ → List Effect → ℕ
settles c [] = 0
settles c (e ∷ es) = settles_one c e + settles c es

-- How many writes of a caller wait.
abbrev pub waits : ℕ → ClusterNode → ℕ
waits c n = total (λ op. is_caller c op.caller) n.pending_writes

pub settles-append :
    (c : ℕ) (xs ys : List Effect) → settles c (xs ++ ys) ≡ settles c xs + settles c ys
unfolding settles
settles-append c [] ys = omega arith
settles-append c (x ∷ xs) ys = omega (arith, settles-append c xs ys)

settles-sends : (c : ℕ) (sends : List Send) → settles c (map peer_send sends) ≡ 0
unfolding settles
settles-sends c [] = refl
settles-sends c (x ∷ sends) = omega (arith, settles-sends c sends)

total-none :
    {V : Type 0} (f : V → ℕ) (k : Str) (m : JsMap V)
    → lookup k m ≡ none
    → total f (erase k m) ≡ total f m
unfolding total erase lookup
total-none f k [] h = refl
total-none f k ((i, w) ∷ m) h = ground (arith, total-none f k m)

total-erase :
    {V : Type 0} (f : V → ℕ) (k : Str) (m : JsMap V)
    → IsMap m
    → total f (erase k m) + measure_at f (lookup k m) ≡ total f m
unfolding total erase lookup
total-erase f k [] h = refl
total-erase f k ((i, w) ∷ m) h = elim (Bool-cases (i == k)) [
  | inl same ↦ ground (arith, total-none f k m, total-none f i m)
  | inr other ↦ ground (arith, total-erase f k m h.1)
]

-- A call leaves in `r` what it finds in `n`: settled and waiting make up what waited, and the writes
-- begun.
abbrev pub Conserves : ℕ → ClusterNode → ℕ → ClusterNode × List Effect → Type 0
Conserves c n begun r = (settles c r.1 + waits c r.0 ≡ waits c n + begun) × IsMap r.0.pending_writes

confirm-Conserves :
    (c : ℕ) (n : ClusterNode) (id : Str) → IsMap n.pending_writes → Conserves c n 0 (confirm n id)
unfolding confirm settles
confirm-Conserves c n id h = elim (Option-cases (lookup id n.pending_writes)) [
  | inl e ↦ rw (e, confirm) (omega arith, h)
  | inr (op, e) ↦ elim (Bool-cases (leb op.quorum_needed (op.confirmations + 1))) [
    | inl enough ↦
        let gone = total-erase (λ o. is_caller c o.caller) id n.pending_writes h in
        let found = ap (measure_at (λ o. is_caller c o.caller)) e in
        rw (e, confirm, enough) (omega arith, erase-IsMap id n.pending_writes h)
    | inr short ↦
        let more : WriteOperation = record op { confirmations = op.confirmations + 1 } in
        let kept = total-insert (λ o. is_caller c o.caller) id more n.pending_writes in
        let found = ap (measure_at (λ o. is_caller c o.caller)) e in
        rw (e, confirm, short) (omega arith, insert-IsMap id more n.pending_writes h)
  ]
]

pub fire-Conserves :
    (c : ℕ) (n : ClusterNode) (id : Str) → IsMap n.pending_writes → Conserves c n 0 (fire n id)
unfolding fire on_write_timeout settles
fire-Conserves c n id h = elim (Option-cases (lookup id n.pending_writes)) [
  | inl e ↦ rw (e, fire) (omega arith, h)
  | inr (op, e) ↦
      let gone = total-erase (λ o. is_caller c o.caller) id n.pending_writes h in
      let found = ap (measure_at (λ o. is_caller c o.caller)) e in
      rw (e, fire) (omega arith, erase-IsMap id n.pending_writes h)
]

pub handle_ack_message-Conserves :
    (c : ℕ) (n : ClusterNode) (msg : Message)
    → IsMap n.pending_writes
    → Conserves c n 0 (handle_ack_message n msg)
unfolding handle_ack_message settles
handle_ack_message-Conserves c n msg h = elim (Option-cases (open_route n.tree msg.message_id)) [
  | inl e ↦ rw (e, handle_ack_message) (confirm-Conserves c n msg.message_id h)
  | inr (conn, e) ↦ rw (e, handle_ack_message) (omega arith, h)
]

pub stop-Conserves : (c : ℕ) (n : ClusterNode) → Conserves c n 0 (stop n) × (waits c (stop n).0 ≡ 0)
unfolding stop settles total
stop-Conserves c n = ((go n.pending_writes, tt), refl)
  where
    go :
        (m : JsMap WriteOperation)
        → settles c (map (λ e. settle ((e.1).caller) accepted) m) + 0
          ≡ total (λ op. is_caller c op.caller) m + 0
    go [] = refl
    go ((id, op) ∷ m) = omega (arith, go m)

broadcast_effects-quiet :
    (c : ℕ) (draw : ℕ → ℕ) (max_seen now : ℕ) (n : ClusterNode) (msg : Message)
    → (settles c (broadcast_effects draw max_seen now n msg).1 ≡ 0)
      × ((broadcast_effects draw max_seen now n msg).0.pending_writes ≡ n.pending_writes)
unfolding broadcast_effects settles
broadcast_effects-quiet c draw max_seen now n msg =
    elim (Option-cases (broadcast_to_enclave draw max_seen now n.gossip msg)) [
      | inl e ↦ rw (e, broadcast_effects) (refl, refl)
      | inr ((g, sends), e) ↦ rw (e, broadcast_effects) (settles-sends c sends, refl)
    ]

send_put-quiet :
    (c : ℕ) (draw : ℕ → ℕ) (max_seen now : ℕ) (n : ClusterNode) (msg : Message)
    → (settles c (send_put draw max_seen now n msg).1 ≡ 0)
      × ((send_put draw max_seen now n msg).0.pending_writes ≡ n.pending_writes)
unfolding send_put settles
send_put-quiet c draw max_seen now n msg =
    ground (arith, broadcast_effects-quiet c draw max_seen now n msg)

replicate-Conserves :
    (c : ℕ) (draw : ℕ → ℕ) (max_seen now caller quorum_needed : ℕ) (n : ClusterNode) (msg : Message)
    → IsMap n.pending_writes
    → lookup msg.message_id n.pending_writes ≡ none
    → Conserves c n (is_caller c caller) (replicate draw max_seen now caller quorum_needed n msg)
unfolding replicate settles
replicate-Conserves c draw max_seen now caller quorum_needed n msg h fresh =
    let op : WriteOperation = record {
      caller = caller;
      confirmations = 1;
      quorum_needed = quorum_needed;
    } in
    let waiting : ClusterNode = record n {
      pending_writes = insert msg.message_id op n.pending_writes;
    } in
    let (quiet, same) = send_put-quiet c draw max_seen now waiting msg in
    let added = total-insert (λ o. is_caller c o.caller) msg.message_id op n.pending_writes in
    let absent = ap (measure_at (λ o. is_caller c o.caller)) fresh in
    let count = ap (total (λ o. is_caller c o.caller)) same in
    elim (Bool-cases (leb quorum_needed 1)) [
      | inl alone ↦ rw alone (omega arith, h)
      | inr many ↦
          rw many (omega arith, rw same (insert-IsMap msg.message_id op n.pending_writes h))
    ]

-- 1 for a write that was begun and 0 for one that threw.
abbrev pub begun_by : ℕ → ℕ → Bool → ℕ
begun_by c caller threw = if threw then 0 else is_caller c caller

result-cases : (r : Result MemoryStore) → (r ≡ store_full) ⊎ ((s : MemoryStore) × (r ≡ ok s))
result-cases (ok s) = inr (s, refl)
result-cases store_full = inl refl

pub write-Conserves :
    (c : ℕ) (draw : ℕ → ℕ) (max_seen now caller : ℕ) (n : ClusterNode) (key : Str)
    (content : Buffer) (ttl : ℕ)
    → IsMap n.pending_writes
    → lookup (put_message now n key content ttl).message_id n.pending_writes ≡ none
    → let outcome = write draw max_seen now caller n key content ttl in
      Conserves c n (begun_by c caller outcome.threw) (outcome.node, outcome.effects)
unfolding write
write-Conserves c draw max_seen now caller n key content ttl h fresh =
    elim (result-cases (Storage.put now n.store key content ttl)) [
      | inl full ↦ rw (full, write) (unfold settles in omega arith, h)
      | inr (s, e) ↦
          let stored : ClusterNode = record n { gossip = count_message n.gossip; store = s } in
          let msg = put_message now n key content ttl in
          rw (e, write)
            (replicate-Conserves c draw max_seen now caller (quorum_size n) stored msg h fresh)
    ]
