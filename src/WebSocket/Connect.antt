-- ===== src/WebSocket/Connect.antt =====
-- repram-mcp/src/node/ws-transport.ts: `connectToSubstrate`. The socket opens, fails or is slow, in
-- any order and any number of times.
use repram.Common.{
  ℕ, ◌≡◌, refl, Bool, true, false, Option, none, some, List, [], ◌∷◌, ◌++◌, Str, js, decimal,
  if◌then◌else◌,
}
use repram.WebSocket.{WebSocketConnection, init}

pub data ConnectEvent : Type 0 where
  opened time_over : ConnectEvent
  failed : Str → ConnectEvent

-- How the promise settles; an error is its message.
pub data ConnectResult : Type 0 where
  resolved : WebSocketConnection → ConnectResult
  rejected : Str → ConnectResult

-- The promise with the timer and the socket that its callbacks use.
pub record Attempt : Type 0 where
  pub timer : Bool
  pub terminated : Bool
  pub result : Option ConnectResult

unfoldable pub substrate_url : Str → ℕ → Str
substrate_url address port = js "ws://" ++ (address ++ (js ":" ++ (decimal port ++ js "/v1/ws")))

unfoldable pub begin_attempt : Attempt
begin_attempt = record { timer = true; terminated = false; result = none }

-- A promise that is settled stays as it is.
unfoldable pub settle_once : ConnectResult → Option ConnectResult → Option ConnectResult
settle_once r none = some r
settle_once r (some first) = some first

abbrev pub timeout_message : Str → Str
timeout_message url = js "WebSocket connection to " ++ (url ++ js " timed out")

-- The three callbacks; that of the timer runs only while it is set, and once.
unfoldable pub on_connect_event : Str → Attempt → ConnectEvent → Attempt
unfolding settle_once init
on_connect_event url a opened = record a {
  timer = false;
  result = settle_once (resolved init) a.result;
}
on_connect_event url a time_over =
    if a.timer
    then record {
      timer = false;
      terminated = true;
      result = settle_once (rejected (timeout_message url)) a.result;
    }
    else a
on_connect_event url a (failed message) = record a {
  timer = false;
  result = settle_once (rejected message) a.result;
}

unfoldable pub connect_to_substrate : Str → Attempt → List ConnectEvent → Attempt
unfolding on_connect_event
connect_to_substrate url a [] = a
connect_to_substrate url a (e ∷ es) = connect_to_substrate url (on_connect_event url a e) es

-- What the first event makes of the promise.
abbrev pub result_of : Str → ConnectEvent → ConnectResult
result_of url opened = resolved init
result_of url time_over = rejected (timeout_message url)
result_of url (failed message) = rejected message

abbrev pub is_time_over : ConnectEvent → Bool
is_time_over time_over = true
is_time_over _ = false

connect-settled :
    (url : Str) (ended : Bool) (r : ConnectResult) (es : List ConnectEvent)
    → let a : Attempt = record { timer = false; terminated = ended; result = some r } in
      connect_to_substrate url a es ≡ a
unfolding connect_to_substrate
connect-settled url ended r [] = refl
connect-settled url ended r (opened ∷ es) = connect-settled url ended r es
connect-settled url ended r (time_over ∷ es) = connect-settled url ended r es
connect-settled url ended r (failed message ∷ es) = connect-settled url ended r es

-- The first event settles the attempt for good: it gives a connection if the socket opened, and an
-- error if the socket failed or the time was over, and the socket is terminated only in the last case.
pub connect_to_substrate_lem :
    (url : Str) (e : ConnectEvent) (es : List ConnectEvent)
    → connect_to_substrate url begin_attempt (e ∷ es)
      ≡ record { timer = false; terminated = is_time_over e; result = some (result_of url e) }
unfolding connect_to_substrate begin_attempt
connect_to_substrate_lem url opened es = connect-settled url false (resolved init) es
connect_to_substrate_lem url time_over es =
    connect-settled url true (rejected (timeout_message url)) es
connect_to_substrate_lem url (failed message) es = connect-settled url false (rejected message) es
