-- ===== src/Tests/Joins.antt =====
-- Examples for a node that joins a network.
use repram.Common.{
  ℕ, ◌+◌, ◌≤◌, ◌≡◌, refl, true, none, some, List, [], ◌∷◌, Str, js, truthy, arith, str_discrete,
  All, head_eq,
}
use repram.Common.JsMap.{lookup, has}
use repram.Wire.{NodeInfo, with_enclave}
use repram.Auth.{sign_body}
use repram.Gossip.{Gossip}
use repram.Cluster.{ClusterNode}
use repram.Tree.Attach.{Attempt, unreachable}
use repram.Transport.{FetchOutcome, failed, Request}
use repram.Bootstrap.{
  BootstrapReply, replied, other_than, bootstrap_request, bootstrap_post, bootstrap_from_peers,
}
use repram.Bootstrap.Notify.{
  notify_peer_about_new_node, notify_peer_about_new_node_lem, requests, time_slept,
}
use repram.Bootstrap.Startup.{bootstrap}
use repram.Bootstrap.Startup.Joining.{seed_serves, seed_answers, bootstrap-joins}
use repram.Tests.{alpha, node_at, alpha_gossip, node_of, tree_of, plain_base64, plain_crypto}
use repram.Tests.Codec.{request_text, read_request, read_request-request_text}

abbrev writer : ClusterNode
writer = node_of 0 none

abbrev secret : Str
secret = js "s"

visible : (content : List ℕ) → truthy (sign_body plain_crypto secret content) ≡ true
unfolding sign_body
visible content = refl

abbrev gamma : NodeInfo
gamma = node_at (js "c")

abbrev lonely : Gossip
lonely = record alpha_gossip { local_node = gamma; peers = []; peer_failures = [] }

abbrev no_attempt : Str → Attempt
no_attempt seed = unreachable

abbrev fetch_writer : Request → BootstrapReply
fetch_writer =
    seed_answers plain_crypto plain_base64 (λ i. 0) 9 7000 secret request_text read_request writer

-- The node c asks the node a, which knows b.
bootstrap-joins_example :
    (lookup
        (js "a")
        (bootstrap
          (bootstrap_from_peers plain_crypto request_text secret fetch_writer)
          no_attempt
          (js "true")
          (js "x:1" ∷ js "y:2" ∷ [])
          lonely
          (tree_of 3)).0.peers
      ≡ some alpha)
    × All
        (λ p.
          has p.id
            (bootstrap
              (bootstrap_from_peers plain_crypto request_text secret fetch_writer)
              no_attempt
              (js "true")
              (js "x:1" ∷ js "y:2" ∷ [])
              lonely
              (tree_of 3)).0.peers
          ≡ true)
        (other_than
          (js "c")
          (seed_serves plain_crypto plain_base64
            (λ i. 0)
            9
            7000
            secret
            request_text
            read_request
            writer
            (bootstrap_post plain_crypto request_text secret
              (js "x:1")
              (bootstrap_request gamma))).peers)
    × (lookup
          (js "c")
          (seed_serves plain_crypto plain_base64
            (λ i. 0)
            9
            7000
            secret
            request_text
            read_request
            writer
            (bootstrap_post plain_crypto request_text secret
              (js "x:1")
              (bootstrap_request gamma))).node.gossip.peers
        ≡ some (with_enclave gamma))
    × ((bootstrap_from_peers plain_crypto request_text secret fetch_writer
          (js "x:1" ∷ js "y:2" ∷ [])
          gamma).1
        ≡ js "x:1" ∷ [])
bootstrap-joins_example =
    bootstrap-joins plain_crypto plain_base64 (λ i. 0) 9 7000 secret request_text read_request
      writer no_attempt (js "true") (js "x:1") (js "y:2" ∷ []) lonely (tree_of 3)
      read_request-request_text visible (λ e. omega (arith, head_eq 99 97 [] [] e))

-- A seed with "x" in its address throws, and any other one has no peers.
abbrev fetch_second : Request → BootstrapReply
fetch_second r = elim (str_discrete r.url (js "http://x/v1/bootstrap")) [
  | yes _ ↦ BootstrapReply.unreachable
  | no _ ↦ replied true (some (record { success = true; peers = some [] }))
]

always_fails : ℕ → FetchOutcome
always_fails k = failed

notify_peer_about_new_node_example :
    (requests (notify_peer_about_new_node always_fails 3) ≤ 3)
    × (time_slept (notify_peer_about_new_node always_fails 3) + 1000 ≤ 4000)
notify_peer_about_new_node_example = notify_peer_about_new_node_lem always_fails 2 (omega arith)
