-- ===== src/Cluster/Settling/Histories.antt =====
-- repram-mcp/src/node/cluster.ts: a node's writes, ACKs and timeouts one after the other, and its stop.
use repram.Common.{ℕ, ◌+◌, ◌≡◌, refl, none, List, [], ◌∷◌, ◌++◌, Str, arith}
use repram.Common.JsMap.{IsMap, lookup, total}
use repram.Storage.{Buffer}
use repram.Wire.{Message}
use repram.Cluster.{ClusterNode, Effect, handle_ack_message, write, put_message, stop}
use repram.Cluster.Writes.{fire}
use repram.Cluster.Settling.{
  settles, waits, begun_by, Conserves, settles-append, fire-Conserves, handle_ack_message-Conserves,
  write-Conserves, stop-Conserves,
}

-- A call of `put` with its time and its caller, an ACK that comes in, or the timeout of a message.
pub data Call : Type 0 where
  puts : (ℕ → ℕ) → ℕ → ℕ → ℕ → Str → Buffer → ℕ → Call
  acks : Message → Call
  times_out : Str → Call

unfoldable pub call : ClusterNode → Call → ClusterNode × List Effect
call n (puts draw max_seen now caller key content ttl) =
    let outcome = write draw max_seen now caller n key content ttl in
    (outcome.node, outcome.effects)
call n (acks msg) = handle_ack_message n msg
call n (times_out id) = fire n id

-- 1 for a write of the caller that does not throw.
unfoldable pub begun : ℕ → ClusterNode → Call → ℕ
begun c n (puts draw max_seen now caller key content ttl) =
    begun_by c caller (write draw max_seen now caller n key content ttl).threw
begun c n _ = 0

unfoldable pub run : ClusterNode → List Call → ClusterNode × List Effect
run n [] = (n, [])
run n (x ∷ xs) =
    let (n', effects) = call n x in let (n'', more) = run n' xs in (n'', effects ++ more)

-- The writes of a caller that do not throw.
unfoldable pub writes_of : ℕ → ClusterNode → List Call → ℕ
writes_of c n [] = 0
writes_of c n (x ∷ xs) = begun c n x + writes_of c (call n x).0 xs

-- No write takes the id of a message that still waits.
abbrev pub IsFresh : ClusterNode → Call → Type 0
IsFresh n (puts draw max_seen now caller key content ttl) =
    lookup (put_message now n key content ttl).message_id n.pending_writes ≡ none
IsFresh n _ = Unit

abbrev pub AllFresh : ClusterNode → List Call → Type 0
AllFresh n [] = Unit
AllFresh n (x ∷ xs) = IsFresh n x × AllFresh (call n x).0 xs

call-Conserves :
    (c : ℕ) (n : ClusterNode) (x : Call)
    → IsMap n.pending_writes
    → IsFresh n x
    → Conserves c n (begun c n x) (call n x)
unfolding call begun
call-Conserves c n (puts draw max_seen now caller key content ttl) h fresh =
    write-Conserves c draw max_seen now caller n key content ttl h fresh
call-Conserves c n (acks msg) h fresh = handle_ack_message-Conserves c n msg h
call-Conserves c n (times_out id) h fresh = fire-Conserves c n id h

run-Conserves :
    (c : ℕ) (n : ClusterNode) (xs : List Call)
    → IsMap n.pending_writes
    → AllFresh n xs
    → Conserves c n (writes_of c n xs) (run n xs)
unfolding run writes_of
run-Conserves c n [] h fresh = (unfold settles in omega arith, h)
run-Conserves c n (x ∷ xs) h fresh =
    let (first, h') = call-Conserves c n x h fresh.0 in
    let (rest, h'') = run-Conserves c (call n x).0 xs h' fresh.1 in
    let both = settles-append c (call n x).1 (run (call n x).0 xs).1 in (omega arith, h'')

-- The promise of every write is settled exactly once. In any history of writes, ACKs and timeouts of
-- a node without waiting writes, followed by its stop, a caller's promises are settled as often as
-- the caller's writes did not throw, and none waits at the end; provided that no write takes the id
-- of a message that still waits.
pub settles-run :
    (c : ℕ) (n : ClusterNode) (xs : List Call)
    → n.pending_writes ≡ []
    → AllFresh n xs
    → let (n', effects) = run n xs in
      (settles c (effects ++ (stop n').1) ≡ writes_of c n xs) × (waits c (stop n').0 ≡ 0)
settles-run c n xs e fresh =
    let nothing : IsMap n.pending_writes = rw e tt in
    let (total_run, h) = run-Conserves c n xs nothing fresh in
    let ((total_stop, h'), none_left) = stop-Conserves c (run n xs).0 in
    let both = settles-append c (run n xs).1 (stop (run n xs).0).1 in
    let empty : waits c n ≡ 0 = unfold total in rw e refl in (omega arith, none_left)
