-- ===== src/Bootstrap.antt =====
-- repram-mcp/src/node/bootstrap.ts: the seeds that DNS names, and the request that joins the mesh. The
-- resolver, `fetch` and JSON are parameters; a lookup or a request that throws gives none.
use repram.Common.{
  ℕ, ◌≢◌, Bool, true, false, not, Option, none, some, List, [], ◌∷◌, ◌++◌, Str, ◌==◌, js, truthy,
  decimal, nat_eq, default_enclave, filter_by, if◌then◌else◌, map,
}
use repram.Wire.{NodeInfo, or_default}
use repram.Auth.{Crypto, sign_body}
use repram.Transport.{Request}
use repram.Server.Peers.{BootstrapRequest}
pub mod Seeds
pub mod Notify
pub mod Startup

pub record SrvRecord : Type 0 where
  pub name : Str
  pub port : ℕ

pub record DnsResolver : Type 0 where
  pub resolve_srv : Str → Option (List SrvRecord)
  pub resolve4 : Str → Option (List Str)

pub record WireBootstrapPeer : Type 0 where
  pub id : Str
  pub address : Str
  pub port : ℕ
  pub http_port : ℕ
  pub enclave : Option Str

pub record BootstrapResponse : Type 0 where
  pub success : Bool
  pub peers : Option (List WireBootstrapPeer)

-- What `fetch` comes to: it throws, or there is a response with a status that is ok or not, and a body
-- that is JSON or not.
pub data BootstrapReply : Type 0 where
  unreachable : BootstrapReply
  replied : Bool → Option BootstrapResponse → BootstrapReply

-- `name.replace(/\.$/, "")`
unfoldable pub strip_dot : Str → Str
strip_dot [] = []
strip_dot (c ∷ []) = if nat_eq c 46 then [] else c ∷ []
strip_dot (c ∷ d ∷ s) = c ∷ strip_dot (d ∷ s)

abbrev pub host_port : Str → ℕ → Str
host_port host port = host ++ (js ":" ++ decimal port)

unfoldable pub srv_seed : SrvRecord → Str
unfolding strip_dot
srv_seed srv = host_port (strip_dot srv.name) srv.port

-- The addresses of A records, where the SRV records give no seed.
unfoldable pub resolve_addresses : DnsResolver → Str → ℕ → List Str
resolve_addresses resolver hostname default_port = elim (resolver.resolve4 hostname) [
  | none ↦ []
  | some addrs ↦ map (λ addr. host_port addr default_port) addrs
]

unfoldable pub resolve_bootstrap_dns : DnsResolver → Str → ℕ → List Str
unfolding srv_seed resolve_addresses
resolve_bootstrap_dns resolver hostname default_port =
    let fallback = resolve_addresses resolver hostname default_port in
    elim (resolver.resolve_srv (js "_gossip._tcp." ++ hostname)) [
      | none ↦ fallback
      | some [] ↦ fallback
      | some (srv ∷ more) ↦ map srv_seed (srv ∷ more)
    ]

-- `localNode.enclave` is left out where it is empty.
unfoldable pub bootstrap_request : NodeInfo → BootstrapRequest
bootstrap_request local_node = record {
  node_id = local_node.id;
  address = local_node.address;
  gossip_port = local_node.port;
  http_port = local_node.http_port;
  enclave = if truthy local_node.enclave then some local_node.enclave else none;
}

unfoldable pub wire_peer_to_node_info : WireBootstrapPeer → NodeInfo
wire_peer_to_node_info peer = record {
  id = peer.id;
  address = peer.address;
  port = peer.port;
  http_port = peer.http_port;
  enclave = or_default default_enclave peer.enclave;
}

unfoldable pub peers_of_reply : BootstrapReply → Option (List NodeInfo)
unfolding wire_peer_to_node_info
peers_of_reply unreachable = none
peers_of_reply (replied false content) = none
peers_of_reply (replied true none) = none
peers_of_reply (replied true (some response)) =
    if response.success
    then some (map wire_peer_to_node_info (or_default [] response.peers))
    else none

abbrev pub other_than : Str → List NodeInfo → List NodeInfo
other_than id = filter_by (λ p. not (p.id == id))

module _ (crypto : Crypto) (stringify : BootstrapRequest → List ℕ) (cluster_secret : Str) where
  unfoldable pub bootstrap_post : Str → BootstrapRequest → Request
  bootstrap_post seed_addr request =
      let content = stringify request in
      record {
        url = js "http://" ++ (seed_addr ++ js "/v1/bootstrap");
        signature =
            if truthy cluster_secret then some (sign_body crypto cluster_secret content) else none;
        body = content;
      }

  unfoldable pub send_bootstrap_request :
      (Request → BootstrapReply) → Str → BootstrapRequest → Option (List NodeInfo)
  unfolding bootstrap_post peers_of_reply
  send_bootstrap_request fetch seed_addr request =
      peers_of_reply (fetch (bootstrap_post seed_addr request))

  -- The peers that were found, and the seeds that were asked.
  unfoldable pub ask_seeds :
      (Request → BootstrapReply) → NodeInfo → BootstrapRequest → List Str → List NodeInfo × List Str
  unfolding send_bootstrap_request
  ask_seeds fetch local_node request [] = ([], [])
  ask_seeds fetch local_node request (seed ∷ seeds) =
      let (found, asked) = ask_seeds fetch local_node request seeds in
      elim (send_bootstrap_request fetch seed request) [
        | some peers ↦ (other_than local_node.id peers, seed ∷ [])
        | none ↦ (found, seed ∷ asked)
      ]

  unfoldable pub bootstrap_from_peers :
      (Request → BootstrapReply) → List Str → NodeInfo → List NodeInfo × List Str
  unfolding ask_seeds bootstrap_request
  bootstrap_from_peers fetch seed_peers local_node =
      ask_seeds fetch local_node (bootstrap_request local_node) seed_peers
