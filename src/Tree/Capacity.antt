-- ===== src/Tree/Capacity.antt =====
-- repram-mcp/src/node/tree.ts: how many children a node takes, over a history of its calls.
use repram.Common.{
  ℕ, ◌≤◌, ◌≡◌, refl, Bool, some, List, [], ◌∷◌, Str, ◌==◌, ltb, if◌then◌else◌, arith, ◌&&◌,
}
use repram.Common.JsMap.{lookup, size, length-insert-le, length-erase-le, lookup-insert}
use repram.Wire.{NodeInfo}
use repram.Tree.{
  Tree, Hello, Connection, handle_hello, on_child_close, record_ack_route, on_ack_route_timer,
  clear_ack_route, stop, init, on_redirect_timer,
}

-- A call on the manager, by its server, a listener or a timer.
pub data Call : Type 0 where
  hello_from : List NodeInfo → ℕ → Hello → Call
  child_close : Str → Call
  relay_route : Str → ℕ → ℕ → Call
  route_timer clear_route : Str → Call
  redirect_timer : ℕ → Call
  shutdown : List NodeInfo → Call

module _ (local_node : NodeInfo) where
  unfoldable pub call : Tree → Call → Tree
  call t (hello_from peers conn hello) = (handle_hello t local_node peers conn hello).tree
  call t (child_close node_id) = on_child_close t node_id
  call t (relay_route message_id conn timer) = record_ack_route t message_id conn timer
  call t (route_timer message_id) = on_ack_route_timer t message_id
  call t (clear_route message_id) = clear_ack_route t message_id
  call t (redirect_timer conn) = on_redirect_timer t conn
  call t (shutdown peers) = (stop t local_node peers).0

  unfoldable pub calls : Tree → List Call → Tree
  calls t [] = t
  calls t (c ∷ cs) = calls (call t c) cs

  abbrev Within : Tree → Type 0
  Within t = size t.children ≤ t.max_children

  handle_hello-Within :
      (t : Tree) (peers : List NodeInfo) (conn : ℕ) (hello : Hello)
      → Within t
      → Within (handle_hello t local_node peers conn hello).tree
        × ((handle_hello t local_node peers conn hello).tree.max_children ≡ t.max_children)
  unfolding handle_hello
  handle_hello-Within t peers conn hello h =
      ground (arith, length-insert-le hello.node_id conn t.children)

  call-Within :
      (t : Tree) (c : Call)
      → Within t
      → Within (call t c) × ((call t c).max_children ≡ t.max_children)
  unfolding call on_child_close record_ack_route on_ack_route_timer clear_ack_route stop
      on_redirect_timer
  call-Within t (hello_from peers conn hello) h = handle_hello-Within t peers conn hello h
  call-Within t (child_close node_id) h = (omega (arith, length-erase-le node_id t.children), refl)
  call-Within t (relay_route message_id conn timer) h = (h, refl)
  call-Within t (route_timer message_id) h = (h, refl)
  call-Within t (clear_route message_id) h = (h, refl)
  call-Within t (redirect_timer conn) h = (h, refl)
  call-Within t (shutdown peers) h = (omega arith, refl)

  calls-Within :
      (t : Tree) (cs : List Call) → Within t → size (calls t cs).children ≤ t.max_children
  unfolding calls
  calls-Within t [] h = h
  calls-Within t (c ∷ cs) h =
      let (within, same) = call-Within t c h in
      let rest = calls-Within (call t c) cs within in omega arith

-- After any history of hellos, closes, ACK routes, timers and a shutdown, a node has at most as many
-- children as its limit allows, none where the limit is 0.
pub size-calls-le :
    (local_node : NodeInfo) (inbound : Bool) (max_children : ℕ) (conns : ℕ → Connection)
    (cs : List Call)
    → size (calls local_node (init inbound max_children conns) cs).children ≤ max_children
unfolding init
size-calls-le local_node inbound max_children conns cs =
    calls-Within local_node (init inbound max_children conns) cs (omega arith)

-- A hello is accepted exactly when there is room, and then the connection is the child's and bears
-- its name. No other child is touched, and a refused hello changes no child and no name.
pub handle_hello_lem :
    (t : Tree) (local_node : NodeInfo) (peers : List NodeInfo) (conn : ℕ) (hello : Hello) (id : Str)
    → let greeted = handle_hello t local_node peers conn hello in
      let room = ltb (size t.children) t.max_children in
      (greeted.accepted ≡ room)
      × (lookup id greeted.tree.children
          ≡ (if room && (hello.node_id == id) then some conn else lookup id t.children))
      × ((greeted.tree.conns conn).remote_node_id
          ≡ (if room then some hello.node_id else (t.conns conn).remote_node_id))
unfolding handle_hello
handle_hello_lem t local_node peers conn hello id =
    ground (arith, lookup-insert hello.node_id id conn t.children)
