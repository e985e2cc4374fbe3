-- ===== src/Server/Lifecycle.antt =====
-- repram-mcp/src/node/server.ts: `HTTPServer.stop`, and the goodbyes that the children get from it.
use repram.Common.{map, Option, none, ℕ, true, some, List, [], ◌∷◌, ◌++◌, js}
use repram.Wire.{NodeInfo}
use repram.Gossip.{get_peers}
use repram.Tree
use repram.Tree.{
  Tree, Connection, Attachment, goodbye, get_alternative_substrates, update_conn,
  send_goodbye_to_children,
}
use repram.RateLimit
use repram.Screening.{SecurityMiddleware}
use repram.Cluster
use repram.Cluster.{ClusterNode, Effect}

-- The node of a server with the tree manager that the constructor sets on it, its checks, and the
-- connections that were accepted and are not closed.
pub record HttpServer : Type 0 where
  pub node : ClusterNode
  pub security : SecurityMiddleware
  pub ws_connections : List ℕ

-- What a stop leaves: the server, what is sent on connections in order, and what settles.
pub record Stopped : Type 0 where
  pub server : HttpServer
  pub sent : List (ℕ × Attachment)
  pub effects : List Effect

-- `conn.close(…)` of every accepted connection.
abbrev pub close_all : (ℕ → Connection) → List ℕ → ℕ → Connection
close_all conns [] = conns
close_all conns (c ∷ cs) = close_all (update_conn conns c (record (conns c) { closed = true })) cs

-- The goodbyes, the stop of the tree manager, and the close of the connections, in this order. Nothing
-- else happens in the half second between the first two.
unfoldable pub stop_tree :
    Option Tree → NodeInfo → List NodeInfo → List ℕ → Option Tree × List (ℕ × Attachment)
stop_tree none local_node peers ws_connections = (none, [])
stop_tree (some t) local_node peers ws_connections =
    let first = send_goodbye_to_children t local_node peers (js "shutdown") in
    let (stopped, second) = Tree.stop t local_node peers in
    (some (record stopped { conns = close_all stopped.conns ws_connections }), first ++ second)

-- Then the close of the rate limiter, and the stop of the node.
unfoldable pub stop_server : HttpServer → Stopped
unfolding stop_tree
stop_server s =
    let (tree, sent) =
      stop_tree (s.node).tree (s.node).gossip.local_node (get_peers (s.node).gossip)
        s.ws_connections in
    let (node, effects) = Cluster.stop s.node in
    record {
      server = record {
        node = record node { tree = tree };
        security = record s.security { rate_limiter = RateLimit.close (s.security).rate_limiter };
        ws_connections = [];
      };
      sent = sent;
      effects = effects;
    }

-- A goodbye to every child, on its connection, with the alternatives that the node knows.
abbrev pub goodbyes : ClusterNode → Tree → List (ℕ × Attachment)
goodbyes n t =
    map
      (λ e. (
        e.1,
        goodbye (js "shutdown")
            (get_alternative_substrates (n.gossip).local_node (get_peers n.gossip) none),
      ))
      t.children
