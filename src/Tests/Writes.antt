-- ===== src/Tests/Writes.antt =====
-- An example for the history of a node's writes.
use repram.Common.{◌≡◌, refl, none, List, [], ◌∷◌, ◌++◌, js}
use repram.Common.JsMap.{lookup}
use repram.Wire.{Message, ack}
use repram.Cluster.{ClusterNode, stop, put_message}
use repram.Cluster.Settling.{settles, waits}
use repram.Cluster.Settling.Histories.{Call, puts, acks, times_out, run, writes_of, settles-run}
use repram.Tests.{beta, message_from, node_of}

abbrev free_node : ClusterNode
free_node = node_of 0 none

abbrev ack_of_put : Message
ack_of_put = record (message_from beta ack) {
  message_id = (put_message 7000 free_node (js "k") (1 ∷ []) 60).message_id;
}

-- A write, its ACK, and a timeout that comes too late.
abbrev one_write : List Call
one_write =
    puts (λ i. 0) 9 7000 5 (js "k") (1 ∷ []) 60
    ∷ acks ack_of_put
    ∷ times_out ack_of_put.message_id
    ∷ []

settles-run_example :
    (settles 5 ((run free_node one_write).1 ++ (stop (run free_node one_write).0).1)
      ≡ writes_of 5 free_node one_write)
    × (waits 5 (stop (run free_node one_write).0).0 ≡ 0)
unfolding lookup
settles-run_example = settles-run 5 free_node one_write refl (refl, (tt, (tt, tt)))
