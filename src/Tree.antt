-- ===== src/Tree.antt =====
-- repram-mcp/src/node/tree.ts: the attachments of a node. A connection is known by a number, and
-- the objects behind the numbers are kept in one store, since the children, the parent and the ACK
-- routes may name the same connection.
use repram.Common.{
  ℕ, ◌≡◌, Bool, true, false, not, ◌&&◌, Option, none, some, List, [], ◌∷◌, ◌++◌, Str, ◌==◌, js,
  nat_eq, ltb, leb, if◌then◌else◌, filter_by, take, map,
}
use repram.Common.JsMap.{JsMap, lookup, insert, erase, size}
use repram.Wire.{NodeInfo, or_default}
pub mod Attach
pub mod Capacity
pub mod Alternatives

-- The fields of a `WebSocketConnection` that the node reads, `closed` for `isClosed`.
pub record Connection : Type 0 where
  pub remote_node_id : Option Str
  pub remote_enclave : Option Str
  pub closed : Bool

pub data Role : Type 0 where
  substrate transient : Role

pub record Tree : Type 0 where
  pub role : Role
  pub max_children : ℕ
  pub conns : ℕ → Connection
  pub parent : Option ℕ
  pub children : JsMap ℕ
  pub ack_routes : JsMap ℕ
  -- `ackRouteTimers` by message id; a timer is known by a number.
  pub ack_route_timers : JsMap ℕ
  pub reattaching : Bool
  -- The connections on which `attach` has left its listeners; they are never removed.
  pub parent_listeners : List ℕ

pub record Hello : Type 0 where
  pub node_id : Str
  pub enclave : Str

-- An alternative parent, in a goodbye.
pub record Alternative : Type 0 where
  pub id : Str
  pub address : Str
  pub http_port : ℕ
  pub enclave : Str

-- The attachment messages that the manager sends.
pub data Attachment : Type 0 where
  welcome : List NodeInfo → Str → Attachment
  goodbye : Str → List Alternative → Attachment

unfoldable pub init : Bool → ℕ → (ℕ → Connection) → Tree
init inbound max_children conns = record {
  role = if inbound then substrate else transient;
  max_children = max_children;
  conns = conns;
  parent = none;
  children = [];
  ack_routes = [];
  ack_route_timers = [];
  reattaching = false;
  parent_listeners = [];
}

abbrev pub update_conn : (ℕ → Connection) → ℕ → Connection → ℕ → Connection
update_conn conns c v d = if nat_eq c d then v else conns d

abbrev pub to_alternative : NodeInfo → Alternative
to_alternative p = record {
  id = p.id;
  address = p.address;
  http_port = p.http_port;
  enclave = p.enclave;
}

-- `enclave ?? this.localNode.enclave`; the peers of that enclave first, five at most.
unfoldable pub get_alternative_substrates : NodeInfo → List NodeInfo → Option Str → List Alternative
get_alternative_substrates local_node peers enclave =
    let wanted = or_default local_node.enclave enclave in
    let same = filter_by (λ p. p.enclave == wanted) peers in
    let others = filter_by (λ p. not (p.enclave == wanted)) peers in
    map to_alternative (take 5 (same ++ others))

-- What `handleHello` does: the state, what it sends on the connection, and its result.
pub record Greeted : Type 0 where
  pub tree : Tree
  pub reply : Attachment
  pub accepted : Bool

abbrev pub redirect : Tree → NodeInfo → List NodeInfo → Hello → Greeted
redirect t local_node peers hello = record {
  tree = t;
  reply =
      goodbye (js "at capacity") (get_alternative_substrates local_node peers (some hello.enclave));
  accepted = false;
}

-- The close of the connection runs `on_child_close`, which the connection's listener keeps.
unfoldable pub handle_hello : Tree → NodeInfo → List NodeInfo → ℕ → Hello → Greeted
handle_hello t local_node peers conn hello =
    if ltb 0 t.max_children && leb t.max_children (size t.children)
    then redirect t local_node peers hello
    else if nat_eq t.max_children 0
    then redirect t local_node peers hello
    else record {
      tree = record t {
        conns = update_conn t.conns conn (record (t.conns conn) {
          remote_node_id = some hello.node_id;
          remote_enclave = some hello.enclave;
        });
        children = insert hello.node_id conn t.children;
      };
      reply = welcome (peers ++ local_node ∷ []) local_node.id;
      accepted = true;
    }

-- `conn.on("close", …)` of a connection that was attached under this node id.
unfoldable pub on_child_close : Tree → Str → Tree
on_child_close t node_id = record t { children = erase node_id t.children }

unfoldable pub record_ack_route : Tree → Str → ℕ → ℕ → Tree
record_ack_route t message_id conn timer = record t {
  ack_routes = insert message_id conn t.ack_routes;
  ack_route_timers = insert message_id timer t.ack_route_timers;
}

-- The callback of the timer that `recordAckRoute` starts.
unfoldable pub on_ack_route_timer : Tree → Str → Tree
on_ack_route_timer t message_id = record t {
  ack_routes = erase message_id t.ack_routes;
  ack_route_timers = erase message_id t.ack_route_timers;
}

unfoldable pub get_ack_route : Tree → Str → Option ℕ
get_ack_route t message_id = lookup message_id t.ack_routes

unfoldable pub clear_ack_route : Tree → Str → Tree
clear_ack_route t message_id = record t {
  ack_routes = erase message_id t.ack_routes;
  ack_route_timers = erase message_id t.ack_route_timers;
}

-- The connections that get a goodbye, and the goodbye.
unfoldable pub send_goodbye_to_children :
    Tree → NodeInfo → List NodeInfo → Str → List (ℕ × Attachment)
send_goodbye_to_children t local_node peers reason =
    map (λ e. (e.1, goodbye reason (get_alternative_substrates local_node peers none))) t.children

-- `conn.close(…)` of a connection, if there is one.
abbrev pub close_conn : (ℕ → Connection) → Option ℕ → ℕ → Connection
close_conn conns none = conns
close_conn conns (some c) = update_conn conns c (record (conns c) { closed = true })

-- The timer that `sendRedirect` starts: the refused connection is closed if it is still open.
unfoldable pub on_redirect_timer : Tree → ℕ → Tree
on_redirect_timer t conn = record t { conns = close_conn t.conns (some conn) }

-- `stop`: the goodbyes, and the state; the parent's connection is closed if it is open.
unfoldable pub stop : Tree → NodeInfo → List NodeInfo → Tree × List (ℕ × Attachment)
unfolding send_goodbye_to_children
stop t local_node peers = (
  record t {
    ack_route_timers = [];
    ack_routes = [];
    conns = close_conn t.conns t.parent;
    parent = none;
    children = [];
  },
  send_goodbye_to_children t local_node peers (js "shutdown"),
)
