-- ===== src/Server/Peers.antt =====
-- repram-mcp/src/node/server.ts: `POST /v1/gossip/message` and `POST /v1/bootstrap`.
use repram.Common.{
  ℕ, ◌≡◌, ◌≢◌, refl, true, false, Option, none, some, List, [], ◌∷◌, ◌++◌, Str, truthy,
  default_enclave, if◌then◌else◌, arith,
}
use repram.Common.JsMap.{lookup, lookup-insert_self}
use repram.Storage.{Buffer}
use repram.Wire.{NodeInfo, WireMessage, Base64, wire_to_message}
use repram.Gossip.{add_peer, get_peers}
use repram.Gossip.Invariant.{IsValid, add_peer-IsValid}
use repram.Auth.{Crypto, verify_body_lem}
use repram.Cluster.{ClusterNode, Effect}
use repram.Cluster.Receive.{receive}
use repram.Server.{
  BodyResult, body, too_large, failed, passed, missing_signature, invalid_signature,
  verify_signature,
}
use repram.Server.Puts.{body_status}

-- A handler's outcome; no status where the exception of the store leaves it unsent.
pub record Served : Type 0 where
  pub node : ClusterNode
  pub effects : List Effect
  pub status : Option ℕ
  pub peers : List NodeInfo

abbrev pub refuse : ClusterNode → ℕ → Served
refuse n status = record { node = n; effects = []; status = some status; peers = [] }

-- The JSON of a bootstrap request.
pub record BootstrapRequest : Type 0 where
  pub node_id : Str
  pub address : Str
  pub gossip_port : ℕ
  pub http_port : ℕ
  pub enclave : Option Str

abbrev pub enclave_or_default : Option Str → Str
enclave_or_default none = default_enclave
enclave_or_default (some e) = if truthy e then e else default_enclave

abbrev pub new_peer : BootstrapRequest → NodeInfo
new_peer r = record {
  id = r.node_id;
  address = r.address;
  port = r.gossip_port;
  http_port = r.http_port;
  enclave = enclave_or_default r.enclave;
}

module _ (c : Crypto) (b : Base64) (draw : ℕ → ℕ) (max_seen now : ℕ) (secret : Str) where
  unfoldable pub deliver : ClusterNode → WireMessage → Served
  deliver n wire =
      let outcome = receive draw max_seen now n (wire_to_message b wire) in
      record {
        node = outcome.node;
        effects = outcome.effects;
        status = if outcome.threw then none else some 200;
        peers = [];
      }

  unfoldable pub gossip_handler :
      (Buffer → Option WireMessage) → ClusterNode → BodyResult → Option Str → Served
  gossip_handler parse n (body content) sig = elim (verify_signature c secret content sig) [
    | missing_signature ↦ refuse n 403
    | invalid_signature ↦ refuse n 403
    | passed ↦ elim (parse content) [ none ↦ refuse n 400 | some wire ↦ deliver n wire ]
  ]
  gossip_handler parse n too_large sig = refuse n (body_status too_large)
  gossip_handler parse n failed sig = refuse n (body_status failed)

  unfoldable pub join : ClusterNode → BootstrapRequest → Served
  join n request =
      let gossip = add_peer n.gossip (new_peer request) in
      record {
        node = record n { gossip = gossip };
        effects = [];
        status = some 200;
        peers = get_peers gossip ++ gossip.local_node ∷ [];
      }

  unfoldable pub bootstrap_handler :
      (Buffer → Option BootstrapRequest) → ClusterNode → BodyResult → Option Str → Served
  unfolding join
  bootstrap_handler parse n (body content) sig = elim (verify_signature c secret content sig) [
    | missing_signature ↦ refuse n 403
    | invalid_signature ↦ refuse n 403
    | passed ↦ elim (parse content) [ none ↦ refuse n 400 | some request ↦ join n request ]
  ]
  bootstrap_handler parse n too_large sig = refuse n (body_status too_large)
  bootstrap_handler parse n failed sig = refuse n (body_status failed)

-- A node with a cluster secret acts on a message or a bootstrap request only if its signature codes
-- the HMAC of the body under the secret: otherwise, and without a signature, the node stays as it is,
-- nothing is sent, and the response is 403.
pub handlers-unsigned :
    (c : Crypto) (b : Base64) (draw : ℕ → ℕ) (max_seen now : ℕ) (secret : Str)
    (parse : Buffer → Option WireMessage) (parse_bootstrap : Buffer → Option BootstrapRequest)
    (n : ClusterNode) (content : Buffer) (sig : Str)
    → truthy secret ≡ true
    → c.from_hex sig ≢ c.hmac_sha256 secret content
    → (gossip_handler c b draw max_seen now secret parse n (body content) (some sig) ≡ refuse n 403)
      × (gossip_handler c b draw max_seen now secret parse n (body content) none ≡ refuse n 403)
      × (bootstrap_handler c b draw max_seen now secret parse_bootstrap n (body content) (some sig)
          ≡ refuse n 403)
      × (bootstrap_handler c b draw max_seen now secret parse_bootstrap n (body content) none
          ≡ refuse n 403)
unfolding gossip_handler bootstrap_handler verify_signature
handlers-unsigned c b draw max_seen now secret parse parse_bootstrap n content sig h k =
    let forged = (verify_body_lem c secret content sig).0 in ground (arith, forged)

-- A node that joins under another id than the local one keeps the peers valid, is a peer under its
-- id, and is told of all the peers, itself and the local node.
pub join_lem :
    (c : Crypto) (b : Base64) (draw : ℕ → ℕ) (max_seen now : ℕ) (secret : Str) (n : ClusterNode)
    (request : BootstrapRequest)
    → request.node_id ≢ (n.gossip).local_node.id
    → IsValid n.gossip
    → let served = join c b draw max_seen now secret n request in
      IsValid (served.node).gossip
      × (lookup request.node_id ((served.node).gossip).peers ≡ some (new_peer request))
      × (served.peers ≡ get_peers (served.node).gossip ++ (n.gossip).local_node ∷ [])
unfolding join
join_lem c b draw max_seen now secret n request h v =
    let peer = new_peer request in
    let added = lookup-insert_self request.node_id peer (n.gossip).peers in
    (
      add_peer-IsValid n.gossip peer h (ground arith) v,
      unfold add_peer in added,
      unfold add_peer in refl,
    )

-- A bootstrap request that bears the node's own id makes the node its own peer, which no message of
-- the mesh does.
pub bootstrap_handler_self :
    (c : Crypto) (b : Base64) (draw : ℕ → ℕ) (max_seen now : ℕ) (secret : Str)
    (parse : Buffer → Option BootstrapRequest) (n : ClusterNode) (content : Buffer)
    (request : BootstrapRequest)
    → truthy secret ≡ false
    → parse content ≡ some request
    → request.node_id ≡ (n.gossip).local_node.id
    → let served = bootstrap_handler c b draw max_seen now secret parse n (body content) none in
      (served.status ≡ some 200)
      × (lookup (n.gossip).local_node.id ((served.node).gossip).peers ≡ some (new_peer request))
unfolding bootstrap_handler verify_signature join add_peer
bootstrap_handler_self c b draw max_seen now secret parse n content request h k e =
    ground (arith, h, k, lookup-insert_self request.node_id (new_peer request) (n.gossip).peers)
