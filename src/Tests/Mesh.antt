-- ===== src/Tests/Mesh.antt =====
-- Examples for the gossip layer and for the node's handling of messages and of its own writes.
use repram.Common.{
  ℕ, ◌≡◌, ◌≢◌, refl, true, false, none, some, List, [], ◌∷◌, js, arith, str_discrete,
}
use repram.Common.JsMap.{JsMap, lookup, has, insert}
use repram.Wire.{NodeInfo, Message, put, sync}
use repram.Storage
use repram.Storage.{ok, store_full}
use repram.Transport.{aborted}
use repram.Gossip.{Gossip, Send, handle_message}
use repram.Gossip.Invariant.{IsValid, handle_message-IsValid}
use repram.Gossip.Volley.{InFlight, handle_message_volley}
use repram.Gossip.Broadcast.{mark, broadcast_to_enclave}
use repram.Gossip.Broadcast.Reach.{Covers, enclave_peers, broadcast_to_enclave-Covers}
use repram.Gossip.Health.{Awaited, ping_peers}
use repram.Gossip.Health.Eviction.{quiet, ping_peers-quiet}
use repram.Gossip.Health.Http.{http_await, ping_peers-http}
use repram.Cluster.{ClusterNode, Effect, peer_send}
use repram.Cluster.Receive.{handle_put_message, ack_message, find_peer}
use repram.Seen.{cleanup_seen_messages}
use repram.Seen.Window.{Event, marks, cleans, run}
use repram.Cluster.Receive.Puts.{handle_put_message_twice}
use repram.Cluster.Receive.Full.{handle_put_message_lost, handle_put_message-acknowledges}
use repram.Tests.{
  alpha, beta, message_from, alpha_gossip, beta_gossip, alpha_gossip-IsValid, beta_gossip-IsValid,
  store_of, node_of, plain_base64, plain_crypto, stringify_key,
}

abbrev own_sync : Message
own_sync = record (message_from beta sync) { node_info = some beta }

handle_message-IsValid_example : IsValid (handle_message 7 alpha_gossip own_sync).gossip
handle_message-IsValid_example = handle_message-IsValid 7 alpha_gossip own_sync alpha_gossip-IsValid

a_ne_b : js "a" ≢ js "b"
a_ne_b e = ground (arith, e)

handle_message_volley_example :
    InFlight 3 7 alpha_gossip beta_gossip
      (record (message_from alpha sync) { node_info = some alpha })
handle_message_volley_example =
    handle_message_volley 3 7 alpha_gossip beta_gossip
      (record (message_from alpha sync) { node_info = some alpha }) alpha_gossip-IsValid
      beta_gossip-IsValid refl refl a_ne_b (refl, refl, refl)

broadcast_to_enclave-Covers_example :
    (sends : List Send) × (broadcast_to_enclave (λ i. 0) 9 7 alpha_gossip (message_from alpha put)
      ≡ some ((mark 9 7 alpha_gossip (js "m")).0, sends))
    × Covers (message_from alpha put) (enclave_peers alpha_gossip) [] sends
broadcast_to_enclave-Covers_example =
    broadcast_to_enclave-Covers (λ i. 0) 9 7 alpha_gossip (message_from alpha put) refl

-- The third failure evicts.
ping_peers-quiet_example :
    (lookup (js "b") (ping_peers (quiet (λ id. true)) 7 alpha_gossip).peers ≡ none)
    × (lookup (js "b") (ping_peers (quiet (λ id. true)) 7 alpha_gossip).peer_failures ≡ none)
unfolding lookup has str_discrete
ping_peers-quiet_example =
    ping_peers-quiet (λ id. true) 7 alpha_gossip (js "b") alpha_gossip-IsValid

abbrev lost_requests : ℕ → Gossip → NodeInfo → Message → Awaited
lost_requests = http_await plain_base64 plain_crypto stringify_key [] (λ r. aborted)

ping_peers-http_example :
    ((ping_peers lost_requests 7 alpha_gossip).peers ≡ alpha_gossip.peers)
    × ((ping_peers lost_requests 7 alpha_gossip).peer_failures ≡ alpha_gossip.peer_failures)
ping_peers-http_example =
    ping_peers-http plain_base64 plain_crypto stringify_key [] (λ r. aborted) 7 alpha_gossip

abbrev small_node : ClusterNode
small_node = node_of 1 none

abbrev free_node : ClusterNode
free_node = node_of 0 none

-- In between, another message came and a cleanup ran.
abbrev between : List (ℕ × Event)
between = (7500, marks (js "x")) ∷ (7600, cleans) ∷ []

abbrev seen_after : ClusterNode → JsMap ℕ
seen_after n =
    run 9 between
      ((handle_put_message (λ i. 0) 9 7000 n (message_from beta put)).node.gossip).seen_messages

abbrev second_time : ClusterNode
second_time = record free_node {
  gossip = record free_node.gossip { seen_messages = seen_after free_node };
}

handle_put_message_twice_example :
    handle_put_message (λ i. 0) 9 8000 second_time (message_from beta put)
    ≡ record { node = second_time; effects = []; threw = false }
unfolding has
handle_put_message_twice_example =
    handle_put_message_twice (λ i. 0) (λ i. 0) 9 7000 8000 free_node second_time
      (message_from beta put) between refl tt (omega arith) (omega arith, (omega arith, tt))
      (omega arith) refl

-- The full node, with room again.
abbrev after_full : ClusterNode
after_full = record free_node {
  gossip = record free_node.gossip { seen_messages = seen_after small_node };
}

abbrev after_minute : ClusterNode
after_minute = record after_full {
  gossip = record (after_full.gossip) {
    seen_messages =
        cleanup_seen_messages 67000
          (((handle_put_message (λ i. 0) 9 7000 small_node (message_from beta put)).node).gossip
            ).seen_messages;
  };
}

abbrev stored_late : Storage.MemoryStore
stored_late = record {
  entries = (js "k", Storage.new_entry 67000 (1 ∷ 2 ∷ []) 60) ∷ [];
  current_bytes = 2;
  max_bytes = 0;
  cleanup_timer = true;
}

handle_put_message_lost_example :
    ((handle_put_message (λ i. 0) 9 7000 small_node (message_from beta put)).threw ≡ true)
    × ((handle_put_message (λ i. 0) 9 7000 small_node (message_from beta put)).effects ≡ [])
    × (((handle_put_message (λ i. 0) 9 7000 small_node (message_from beta put)).node).store
        ≡ store_of 1)
    × (handle_put_message (λ i. 0) 9 8000 after_full (message_from beta put)
        ≡ record { node = after_full; effects = []; threw = false })
    × ((handle_put_message (λ i. 0) 9 67000 after_minute (message_from beta put)).node.store
        ≡ stored_late)
unfolding has Storage.put lookup insert
handle_put_message_lost_example =
    handle_put_message_lost (λ i. 0) (λ i. 0) 9 7000 8000 67000 small_node after_full
      (message_from beta put) between stored_late refl refl tt (omega arith)
      (omega arith, (omega arith, tt)) (omega arith) refl (omega arith) refl

abbrev stored : Storage.MemoryStore
stored = record {
  entries = (js "k", Storage.new_entry 7000 (1 ∷ 2 ∷ []) 60) ∷ [];
  current_bytes = 2;
  max_bytes = 0;
  cleanup_timer = true;
}

handle_put_message-acknowledges_example :
    (Storage.get 66999
        ((handle_put_message (λ i. 0) 9 7000 free_node (message_from beta put)).node).store
        (js "k")
      ≡ some (1 ∷ 2 ∷ []))
    × ((rest : List Effect) × ((handle_put_message
            (λ i. 0)
            9
            7000
            free_node
            (message_from beta put)).effects
          ≡ peer_send (record {
            target = beta;
            message = ack_message 7000 free_node (message_from beta put);
          })
            ∷ rest))
unfolding has Storage.put lookup insert find_peer str_discrete
handle_put_message-acknowledges_example =
    handle_put_message-acknowledges (λ i. 0) 9 7000 66999 free_node (message_from beta put) stored
      beta refl refl refl refl (omega arith)
