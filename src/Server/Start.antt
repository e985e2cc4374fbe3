-- ===== src/Server/Start.antt =====
-- repram-mcp/src/node/server.ts and cluster.ts: how a server is put together from its configuration,
-- the connections that it accepts, and the reports on its state.
use repram.Common.{
  ℕ, ◌*◌, ◌≡◌, refl, not, Option, none, some, List, [], ◌∷◌, Str, ◌==◌, js, truthy, default_enclave,
  nat_eq, filter_by, if◌then◌else◌, map, arith,
}
use repram.Wire.{NodeInfo}
use repram.Storage
use repram.Storage.Accounting
use repram.Storage.Accounting.{init-IsValid}
use repram.Common.JsMap.{lookup}
use repram.Gossip
use repram.Gossip.{get_peers, get_replication_peers}
use repram.Gossip.Invariant
use repram.Tree
use repram.Tree.{Connection, Alternative, to_alternative}
use repram.Cluster.{ClusterNode, quorum_size}
use repram.RateLimit
use repram.WebSocket
use repram.WebSocket.{WebSocketConnection, start_heartbeat}
use repram.Server.Config.{ServerConfig}
use repram.Server.Lifecycle.{HttpServer}

-- `localNode` of a cluster node; an empty enclave is the default one.
unfoldable pub local_node_of : ServerConfig → NodeInfo
local_node_of config = record {
  id = config.node_id;
  address = config.address;
  port = config.gossip_port;
  http_port = config.http_port;
  enclave = if truthy config.enclave then config.enclave else default_enclave;
}

-- The constructors of the server and of the objects that it makes.
unfoldable pub init_server : (ℕ → Connection) → ServerConfig → HttpServer
unfolding local_node_of Storage.init Gossip.init Tree.init RateLimit.init
init_server conns config =
    let tree = Tree.init (config.inbound == js "true") config.max_children conns in
    record {
      node = record {
        gossip = Gossip.init (local_node_of config) config.replication_factor;
        store = Storage.init config.max_storage_bytes;
        replication_factor = config.replication_factor;
        pending_writes = [];
        tree = some tree;
      };
      security = record {
        rate_limiter = RateLimit.init config.rate_limit (config.rate_limit * 2);
        max_request_size = 10 * 1024 * 1024;
        trust_proxy = config.trust_proxy;
      };
      ws_connections = [];
    }

-- What an upgrade comes to: an exception of `new URL`, a 404, or a connection with its heartbeat.
pub data Upgraded : Type 0 where
  thrown not_found : Upgraded
  accepted : WebSocketConnection → Upgraded

-- A set of connections gets one more, or loses one.
abbrev add_connection : ℕ → List ℕ → List ℕ
add_connection conn [] = conn ∷ []
add_connection conn (c ∷ cs) = if nat_eq c conn then c ∷ cs else c ∷ add_connection conn cs

unfoldable pub accept_connection : HttpServer → ℕ → HttpServer
accept_connection s conn = record s { ws_connections = add_connection conn s.ws_connections }

unfoldable pub handle_upgrade : (Str → Option Str) → HttpServer → Str → ℕ → HttpServer × Upgraded
unfolding accept_connection start_heartbeat WebSocket.init
handle_upgrade parse_url s url conn = elim (parse_url url) [
  | none ↦ (s, thrown)
  | some path ↦
      if path == js "/v1/ws"
      then (accept_connection s conn, accepted (start_heartbeat WebSocket.init))
      else (s, not_found)
]

-- The listener of an accepted connection for "close".
unfoldable pub on_connection_close : HttpServer → ℕ → HttpServer
on_connection_close s conn = record s {
  ws_connections = filter_by (λ c. not (nat_eq c conn)) s.ws_connections;
}

pub record HealthReport : Type 0 where
  pub status : Str
  pub node_id : Str
  pub network : Str
  pub enclave : Str

unfoldable pub health_handler : ServerConfig → ClusterNode → HealthReport
health_handler config n = record {
  status = js "healthy";
  node_id = config.node_id;
  network = config.network;
  enclave = (n.gossip).local_node.enclave;
}

-- The peers are told of as alternatives are.
pub record TopologyReport : Type 0 where
  pub node_id : Str
  pub enclave : Str
  pub peers : List Alternative

unfoldable pub topology_handler : ServerConfig → ClusterNode → TopologyReport
topology_handler config n = record {
  node_id = config.node_id;
  enclave = (n.gossip).local_node.enclave;
  peers = map to_alternative (get_peers n.gossip);
}

-- A server starts with a store and peers that keep their invariants, and alone: its quorum is itself.
pub init_server-IsValid :
    (conns : ℕ → Connection) (config : ServerConfig)
    → let node = (init_server conns config).node in
      Storage.Accounting.IsValid node.store
      × Gossip.Invariant.IsValid node.gossip
      × (quorum_size node ≡ 1)
unfolding init_server quorum_size get_replication_peers
init_server-IsValid conns config = (
  init-IsValid config.max_storage_bytes,
  record { distinct = tt; keyed = tt; foreign = unfold lookup in refl },
  ground arith,
)
