-- ===== src/WebSocket.antt =====
-- repram-mcp/src/node/ws-transport.ts: the state of a `WebSocketConnection` and its lifecycle. The
-- socket belongs to the ws package: what the connection does with it is a list of actions, and the
-- ready state of the socket is an argument.
use repram.Common.{
  ℕ, ◌+◌, Bool, true, false, ◌||◌, Option, none, List, [], ◌∷◌, Str, ltb, if◌then◌else◌,
}
use repram.Tree.{Connection}
pub mod Heartbeat
pub mod Closing
pub mod Frames
pub mod Connect

abbrev pub max_missed_pongs : ℕ
max_missed_pongs = 3

pub data ReadyState : Type 0 where
  connecting open_state closing closed_state : ReadyState

-- `heartbeat_timer`: whether the interval is set.
pub record WebSocketConnection : Type 0 where
  pub heartbeat_timer : Bool
  pub missed_pongs : ℕ
  pub closed : Bool
  pub remote_node_id : Option Str
  pub remote_enclave : Option Str

-- What is done with the socket, and the events that the connection emits for its owner.
pub data Action : Type 0 where
  ping terminated : Action
  closed_with : ℕ → Str → Action
  sent : List ℕ → Action
  emit_close : ℕ → Str → Action
  emit_error : Str → Action

unfoldable pub init : WebSocketConnection
init = record {
  heartbeat_timer = false;
  missed_pongs = 0;
  closed = false;
  remote_node_id = none;
  remote_enclave = none;
}

unfoldable pub start_heartbeat : WebSocketConnection → WebSocketConnection
start_heartbeat c =
    if c.heartbeat_timer then c else record c { missed_pongs = 0; heartbeat_timer = true }

unfoldable pub stop_heartbeat : WebSocketConnection → WebSocketConnection
stop_heartbeat c = if c.heartbeat_timer then record c { heartbeat_timer = false } else c

-- The callback of the interval.
unfoldable pub on_interval : WebSocketConnection → WebSocketConnection × List Action
unfolding stop_heartbeat
on_interval c =
    if c.closed
    then (stop_heartbeat c, [])
    else (let missed = record c { missed_pongs = c.missed_pongs + 1 } in
        if ltb max_missed_pongs missed.missed_pongs
        then (stop_heartbeat missed, terminated ∷ [])
        else (missed, ping ∷ []))

-- The listeners of the socket for "pong", "close" and "error".
unfoldable pub on_pong : WebSocketConnection → WebSocketConnection
on_pong c = record c { missed_pongs = 0 }

unfoldable pub on_close : WebSocketConnection → ℕ → Str → WebSocketConnection × List Action
unfolding stop_heartbeat
on_close c code reason = (stop_heartbeat (record c { closed = true }), emit_close code reason ∷ [])

unfoldable pub on_error : WebSocketConnection → Str → WebSocketConnection × List Action
on_error c message = (c, emit_error message ∷ [])

unfoldable pub close : WebSocketConnection → ℕ → Str → WebSocketConnection × List Action
unfolding stop_heartbeat
close c code reason =
    if c.closed
    then (c, [])
    else (stop_heartbeat (record c { closed = true }), closed_with code reason ∷ [])

unfoldable pub terminate : WebSocketConnection → WebSocketConnection × List Action
unfolding stop_heartbeat
terminate c = (stop_heartbeat (record c { closed = true }), terminated ∷ [])

unfoldable pub is_closed : ReadyState → WebSocketConnection → Bool
is_closed connecting c = c.closed
is_closed open_state c = c.closed
is_closed closing c = true
is_closed closed_state c = true

-- The connection as the tree manager reads it.
unfoldable pub view : ReadyState → WebSocketConnection → Connection
unfolding is_closed
view state c = record {
  remote_node_id = c.remote_node_id;
  remote_enclave = c.remote_enclave;
  closed = is_closed state c;
}
