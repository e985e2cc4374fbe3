-- ===== src/WebSocket/Closing.antt =====
-- repram-mcp/src/node/ws-transport.ts: what a closed connection still does, over any calls of its
-- owner and events of its socket.
use repram.Common.{ℕ, ◌≡◌, true, List, [], ◌∷◌, ◌++◌, Str, arith, if◌then◌else◌, All, All-append}
use repram.WebSocket.{
  WebSocketConnection, Action, ping, terminated, closed_with, sent, emit_close, emit_error,
  start_heartbeat, stop_heartbeat, on_close, on_error, close, terminate,
}
use repram.WebSocket.Heartbeat.{beat, interval, pong}

-- A call of the owner, or an event; a send is given by the text of the frame.
pub data Operation : Type 0 where
  start stop tick ponged terminating : Operation
  closing socket_close : ℕ → Str → Operation
  socket_error : Str → Operation
  send_text : List ℕ → Operation

-- `if (this.closed) return;` at the top of `sendAttachmentMessage`, and its last line.
unfoldable pub send_frame : WebSocketConnection → List ℕ → List Action
send_frame c text = if c.closed then [] else sent text ∷ []

unfoldable pub perform : WebSocketConnection → Operation → WebSocketConnection × List Action
unfolding send_frame
perform c start = (start_heartbeat c, [])
perform c stop = (stop_heartbeat c, [])
perform c tick = beat c interval
perform c ponged = beat c pong
perform c terminating = terminate c
perform c (closing code reason) = close c code reason
perform c (socket_close code reason) = on_close c code reason
perform c (socket_error message) = on_error c message
perform c (send_text text) = (c, send_frame c text)

unfoldable pub perform_all :
    WebSocketConnection → List Operation → WebSocketConnection × List Action
perform_all c [] = (c, [])
perform_all c (o ∷ os) =
    let (c', actions) = perform c o in let (c'', more) = perform_all c' os in (c'', actions ++ more)

-- Nothing goes out: no ping, no frame, and no close frame.
abbrev pub IsSilent : Action → Type 0
IsSilent ping = ⊥
IsSilent (sent text) = ⊥
IsSilent (closed_with code reason) = ⊥
IsSilent terminated = Unit
IsSilent (emit_close code reason) = Unit
IsSilent (emit_error message) = Unit

perform-closed :
    (c : WebSocketConnection) (o : Operation)
    → c.closed ≡ true
    → ((perform c o).0.closed ≡ true) × All IsSilent (perform c o).1
unfolding perform start_heartbeat stop_heartbeat beat terminate close on_close on_error
perform-closed c start h = ground (arith, h)
perform-closed c stop h = ground (arith, h)
perform-closed c tick h = ground (arith, h)
perform-closed c ponged h = (h, tt)
perform-closed c terminating h = ground (arith, h)
perform-closed c (closing code reason) h = ground (arith, h)
perform-closed c (socket_close code reason) h = ground (arith, h)
perform-closed c (socket_error message) h = (h, (tt, tt))
perform-closed c (send_text text) h = ground (arith, h)

still-closed :
    (c : WebSocketConnection) (os : List Operation)
    → c.closed ≡ true
    → ((perform_all c os).0.closed ≡ true) × All IsSilent (perform_all c os).1
unfolding perform_all
still-closed c [] h = (h, tt)
still-closed c (o ∷ os) h =
    let (still, silent) = perform-closed c o h in
    let (last, rest) = still-closed (perform c o).0 os still in
    (last, All-append IsSilent (perform c o).1 (perform_all (perform c o).0 os).1 silent rest)

abbrev pub IsClosing : Operation → Type 0
IsClosing terminating = Unit
IsClosing (closing code reason) = Unit
IsClosing (socket_close code reason) = Unit
IsClosing start = ⊥
IsClosing stop = ⊥
IsClosing tick = ⊥
IsClosing ponged = ⊥
IsClosing (socket_error message) = ⊥
IsClosing (send_text text) = ⊥

perform-IsClosing :
    (c : WebSocketConnection) (o : Operation) → IsClosing o → (perform c o).0.closed ≡ true
unfolding perform stop_heartbeat terminate close on_close
perform-IsClosing c terminating h = ground arith
perform-IsClosing c (closing code reason) h = ground arith
perform-IsClosing c (socket_close code reason) h = ground arith
perform-IsClosing c start h = absurd h
perform-IsClosing c stop h = absurd h
perform-IsClosing c tick h = absurd h
perform-IsClosing c ponged h = absurd h
perform-IsClosing c (socket_error message) h = absurd h
perform-IsClosing c (send_text text) h = absurd h

-- From a connection in any state: after `close`, `terminate` or the close of its socket, it is closed,
-- and whatever is called or happens later, it stays closed and sends no frame, no ping and no close
-- frame.
pub perform_all-closed :
    (c : WebSocketConnection) (o : Operation) (os : List Operation)
    → IsClosing o
    → let c' = (perform c o).0 in
      (c'.closed ≡ true)
      × ((perform_all c' os).0.closed ≡ true)
      × All IsSilent (perform_all c' os).1
perform_all-closed c o os h =
    let now_closed = perform-IsClosing c o h in
    let (still, silent) = still-closed (perform c o).0 os now_closed in (now_closed, still, silent)
