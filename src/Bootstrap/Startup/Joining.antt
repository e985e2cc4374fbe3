-- ===== src/Bootstrap/Startup/Joining.antt =====
-- repram-mcp/src/index.ts, node/bootstrap.ts and node/server.ts: a node that starts and the seed that
-- it asks, which runs `bootstrapHandler`.
use repram.Common.{
  ℕ, ◌≡◌, ◌≢◌, refl, ◌∙◌, ap, true, false, Option, none, some, List, [], ◌∷◌, ◌++◌, Str, truthy,
  nat_eq, if◌then◌else◌, arith, All, map,
}
use repram.Common.JsMap.{lookup, has, lookup-insert_self, has-insert}
use repram.Wire.{NodeInfo, Base64, with_enclave}
use repram.Auth.{Crypto, sign_body, verify_body_lem}
use repram.Storage.{Buffer}
use repram.Gossip.{Gossip, add_peer, get_peers}
use repram.Tree.{Tree}
use repram.Tree.Attach.{Attempt}
use repram.Transport.{Request}
use repram.Cluster.{ClusterNode}
use repram.Server.{body, verify_signature}
use repram.Server.Peers.{Served, BootstrapRequest, new_peer, bootstrap_handler, join}
use repram.Bootstrap.{
  BootstrapReply, unreachable, replied, WireBootstrapPeer, wire_peer_to_node_info,
  bootstrap_request, bootstrap_post, send_bootstrap_request, peers_of_reply, other_than,
  bootstrap_from_peers,
}
use repram.Bootstrap.Seeds.{Answers, bootstrap_from_peers_lem}
use repram.Bootstrap.Startup.{add_peers, bootstrap}

-- The JSON of a peer in a response of the seed, and of the response.
unfoldable pub to_bootstrap_peer : NodeInfo → WireBootstrapPeer
to_bootstrap_peer p = record {
  id = p.id;
  address = p.address;
  port = p.port;
  http_port = p.http_port;
  enclave = some p.enclave;
}

unfoldable pub bootstrap_reply : Served → BootstrapReply
unfolding to_bootstrap_peer
bootstrap_reply served = elim served.status [
  | none ↦ unreachable
  | some status ↦
      if nat_eq status 200
      then replied true
          (some (record { success = true; peers = some (map to_bootstrap_peer served.peers) }))
      else replied false none
]

read_peers : (ps : List NodeInfo) → map wire_peer_to_node_info (map to_bootstrap_peer ps) ≡ ps
unfolding wire_peer_to_node_info to_bootstrap_peer
read_peers [] = refl
read_peers (p ∷ ps) = ap (◌∷◌ p) (read_peers ps)

has-add_peers :
    (k : Str) (ps : List NodeInfo) (g : Gossip)
    → has k g.peers ≡ true
    → has k (add_peers g ps).peers ≡ true
unfolding add_peers
has-add_peers k [] g h = h
has-add_peers k (p ∷ ps) g h =
    has-add_peers k ps (add_peer g p)
      (unfold add_peer in ground (arith, has-insert p.id k p g.peers, h))

add_peers-has :
    (ps : List NodeInfo) (g : Gossip) → All (λ p. has p.id (add_peers g ps).peers ≡ true) ps
unfolding add_peers
add_peers-has [] g = tt
add_peers-has (p ∷ ps) g = (
  has-add_peers p.id ps (add_peer g p)
      (unfold add_peer in ground (arith, has-insert p.id p.id p g.peers)),
  add_peers-has ps (add_peer g p),
)

add_peers-last :
    (ps : List NodeInfo) (last : NodeInfo) (g : Gossip)
    → lookup last.id (add_peers g (ps ++ last ∷ [])).peers ≡ some last
unfolding add_peers add_peer
add_peers-last [] last g = lookup-insert_self last.id last g.peers
add_peers-last (p ∷ ps) last g = add_peers-last ps last (add_peer g p)

other_than-last :
    (id : Str) (ps : List NodeInfo) (last : NodeInfo)
    → id ≢ last.id
    → other_than id (ps ++ last ∷ []) ≡ other_than id ps ++ last ∷ []
other_than-last id [] last h = ground (arith, h)
other_than-last id (p ∷ ps) last h = ground (arith, other_than-last id ps last h)

module _ (crypto : Crypto) (b64 : Base64) (draw : ℕ → ℕ) (max_seen now : ℕ) (cluster_secret : Str)
    (stringify : BootstrapRequest → List ℕ) (parse : Buffer → Option BootstrapRequest)
    (seed : ClusterNode) where
  -- The seed answers a request.
  unfoldable pub seed_serves : Request → Served
  seed_serves r =
      bootstrap_handler crypto b64 draw max_seen now cluster_secret parse seed (body r.body)
        r.signature

  unfoldable pub seed_answers : Request → BootstrapReply
  unfolding seed_serves bootstrap_reply
  seed_answers r = bootstrap_reply (seed_serves r)

  seed_serves-join :
      (addr : Str) (request : BootstrapRequest)
      → parse (stringify request) ≡ some request
      → ((content : List ℕ) → truthy (sign_body crypto cluster_secret content) ≡ true)
      → seed_serves (bootstrap_post crypto stringify cluster_secret addr request)
        ≡ join crypto b64 draw max_seen now cluster_secret seed request
  unfolding seed_serves bootstrap_handler verify_signature bootstrap_post
  seed_serves-join addr request p visible =
      let content = stringify request in
      let (_, right) =
        verify_body_lem crypto cluster_secret content (sign_body crypto cluster_secret content) in
      ground (arith, p, visible content, right)

  -- What the seed does for a node that asks.
  abbrev pub served_for : NodeInfo → Served
  served_for local_node =
      join crypto b64 draw max_seen now cluster_secret seed (bootstrap_request local_node)

  join-peers_of_reply :
      (request : BootstrapRequest)
      → let served = join crypto b64 draw max_seen now cluster_secret seed request in
        peers_of_reply (bootstrap_reply served) ≡ some served.peers
  unfolding join peers_of_reply bootstrap_reply
  join-peers_of_reply request =
      let served = join crypto b64 draw max_seen now cluster_secret seed request in
      ap some (read_peers served.peers)

  seed-Answers :
      (addr : Str) (local_node : NodeInfo)
      → parse (stringify (bootstrap_request local_node)) ≡ some (bootstrap_request local_node)
      → ((content : List ℕ) → truthy (sign_body crypto cluster_secret content) ≡ true)
      → Answers crypto stringify cluster_secret seed_answers local_node addr
          (served_for local_node).peers
  unfolding send_bootstrap_request seed_answers
  seed-Answers addr local_node p visible =
      let request = bootstrap_request local_node in
      rw (seed_serves-join addr request p visible) (join-peers_of_reply request)

  asked-seed :
      (addr : Str) (more : List Str) (local_node : NodeInfo)
      → parse (stringify (bootstrap_request local_node)) ≡ some (bootstrap_request local_node)
      → ((content : List ℕ) → truthy (sign_body crypto cluster_secret content) ≡ true)
      → bootstrap_from_peers crypto stringify cluster_secret seed_answers (addr ∷ more) local_node
        ≡ (other_than local_node.id (served_for local_node).peers, addr ∷ [])
  asked-seed addr more local_node p visible =
      let (found, _) =
        bootstrap_from_peers_lem crypto stringify cluster_secret seed_answers local_node [] addr
          more (served_for local_node).peers tt (seed-Answers addr local_node p visible) in
      found

-- The last of the nodes that a seed tells of is known as it was told.
told-seed :
    (id : Str) (told ps : List NodeInfo) (last : NodeInfo) (g : Gossip)
    → id ≢ last.id
    → told ≡ ps ++ last ∷ []
    → lookup last.id (add_peers g (other_than id told)).peers ≡ some last
told-seed id told ps last g h e =
    rw (e, other_than-last id ps last h) (add_peers-last (other_than id ps) last g)

new_peer-bootstrap_request : (l : NodeInfo) → new_peer (bootstrap_request l) ≡ with_enclave l
unfolding bootstrap_request
new_peer-bootstrap_request l = ground arith

joined-request :
    (crypto : Crypto) (b64 : Base64) (draw : ℕ → ℕ) (max_seen now : ℕ) (cluster_secret : Str)
    (seed : ClusterNode) (l : NodeInfo)
    → lookup l.id
        (join crypto b64 draw max_seen now cluster_secret seed
          (bootstrap_request l)).node.gossip.peers
      ≡ some (with_enclave l)
unfolding join add_peer bootstrap_request
joined-request crypto b64 draw max_seen now cluster_secret seed l =
    lookup-insert_self l.id (new_peer (bootstrap_request l)) seed.gossip.peers
    ∙ ap some (new_peer-bootstrap_request l)

bootstrap-gossip :
    (ask : List Str → NodeInfo → List NodeInfo × List Str) (attempt : Str → Attempt) (inbound : Str)
    (seed_addr : Str) (more : List Str) (g : Gossip) (t : Tree)
    → (bootstrap ask attempt inbound (seed_addr ∷ more) g t).0
      ≡ add_peers g (ask (seed_addr ∷ more) g.local_node).0
unfolding bootstrap
bootstrap-gossip ask attempt inbound seed_addr more g t = ground arith

-- A node that starts and asks a seed under another id and with the same secret: the node then knows
-- the seed as it is, and every other node that the seed told of; the seed knows the node, with
-- "default" for an empty enclave; and the seeds after it are not asked. The request is read as it was
-- written, and signatures are not empty.
pub bootstrap-joins :
    (crypto : Crypto) (b64 : Base64) (draw : ℕ → ℕ) (max_seen now : ℕ) (cluster_secret : Str)
    (stringify : BootstrapRequest → List ℕ) (parse : Buffer → Option BootstrapRequest)
    (seed : ClusterNode) (attempt : Str → Attempt) (inbound addr : Str) (more : List Str)
    (g : Gossip) (t : Tree)
    → ((r : BootstrapRequest) → parse (stringify r) ≡ some r)
    → ((content : List ℕ) → truthy (sign_body crypto cluster_secret content) ≡ true)
    → g.local_node.id ≢ seed.gossip.local_node.id
    → let fetch = seed_answers crypto b64 draw max_seen now cluster_secret stringify parse seed in
      let ask = bootstrap_from_peers crypto stringify cluster_secret fetch in
      let joined = (bootstrap ask attempt inbound (addr ∷ more) g t).0 in
      let served =
        seed_serves crypto b64 draw max_seen now cluster_secret stringify parse seed
          (bootstrap_post crypto stringify cluster_secret addr (bootstrap_request g.local_node)) in
      (lookup seed.gossip.local_node.id joined.peers ≡ some seed.gossip.local_node)
      × All (λ p. has p.id joined.peers ≡ true) (other_than g.local_node.id served.peers)
      × (lookup g.local_node.id served.node.gossip.peers ≡ some (with_enclave g.local_node))
      × ((ask (addr ∷ more) g.local_node).1 ≡ addr ∷ [])
bootstrap-joins crypto b64 draw max_seen now cluster_secret stringify parse seed attempt inbound
      addr more g t reads visible h =
    let request = bootstrap_request g.local_node in
    let asked =
      asked-seed crypto b64 draw max_seen now cluster_secret stringify parse seed addr more
        g.local_node (reads request) visible in
    let served =
      served_for crypto b64 draw max_seen now cluster_secret stringify parse seed g.local_node in
    let fetch = seed_answers crypto b64 draw max_seen now cluster_secret stringify parse seed in
    let ask = bootstrap_from_peers crypto stringify cluster_secret fetch in
    let serves =
      seed_serves-join crypto b64 draw max_seen now cluster_secret stringify parse seed addr request
        (reads request) visible in
    let joined =
      bootstrap-gossip ask attempt inbound addr more g t ∙ ap (λ r. add_peers g r.0) asked in
    let others = other_than g.local_node.id served.peers in
    (
      ap (λ k. lookup seed.gossip.local_node.id k.peers) joined
          ∙ told-seed g.local_node.id served.peers (get_peers served.node.gossip)
              seed.gossip.local_node g h (unfold join add_peer in refl),
      rw (joined, serves) (add_peers-has others g),
      rw serves (joined-request crypto b64 draw max_seen now cluster_secret seed g.local_node),
      ap (λ r. r.1) asked,
    )
