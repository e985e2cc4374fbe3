-- ===== src/WebSocket/Heartbeat.antt =====
-- repram-mcp/src/node/ws-transport.ts: when the heartbeat gives a connection up.
use repram.Common.{
  ℕ, zero, suc, ◌+◌, ◌≤◌, ◌≡◌, refl, sym, ap, ◌∙◌, true, false, List, [], ◌∷◌, ◌++◌, arith, leb,
  if◌then◌else◌, All,
}
use repram.WebSocket.{
  WebSocketConnection, Action, ping, terminated, on_interval, on_pong, start_heartbeat,
  max_missed_pongs,
}

-- What the clock and the remote end do to a connection that nobody closes.
pub data Beat : Type 0 where
  interval pong : Beat

-- The interval is only called while it is set.
unfoldable pub beat : WebSocketConnection → Beat → WebSocketConnection × List Action
unfolding on_interval on_pong
beat c interval = if c.heartbeat_timer then on_interval c else (c, [])
beat c pong = (on_pong c, [])

unfoldable pub beats : WebSocketConnection → List Beat → WebSocketConnection × List Action
unfolding beat
beats c [] = (c, [])
beats c (b ∷ bs) =
    let (c', actions) = beat c b in let (c'', more) = beats c' bs in (c'', actions ++ more)

-- So many intervals in a row.
abbrev pub silence : ℕ → List Beat → List Beat
silence zero after = after
silence (suc k) after = interval ∷ silence k after

-- Intervals with pongs between them, given by the lengths of the silences.
abbrev pub answered : List ℕ → List Beat → List Beat
answered [] after = after
answered (gap ∷ gaps) after = silence gap (pong ∷ answered gaps after)

abbrev pub pings : ℕ → List Action → List Action
pings zero after = after
pings (suc k) after = ping ∷ pings k after

abbrev pub sum : List ℕ → ℕ
sum [] = 0
sum (k ∷ ks) = k + sum ks

-- The actions of a silence that never ends.
abbrev pub given_up : ℕ → List Action
given_up k = if leb k max_missed_pongs then pings k [] else pings max_missed_pongs (terminated ∷ [])

-- A connection with its interval set, after so many missed pongs.
abbrev pub running : ℕ → WebSocketConnection → WebSocketConnection
running m c = record c { missed_pongs = m; closed = false; heartbeat_timer = true }

-- A connection that has been given up, or closed.
abbrev stopped : WebSocketConnection → WebSocketConnection
stopped c = record c { heartbeat_timer = false }

silence-pings :
    (k m : ℕ) (c : WebSocketConnection) (after : List Beat)
    → m + k ≤ max_missed_pongs
    → beats (running m c) (silence k after)
      ≡ ((beats (running (m + k) c) after).0, pings k (beats (running (m + k) c) after).1)
unfolding beats
silence-pings zero m c after h =
    let same : m ≡ m + 0 = omega arith in ap (λ j. beats (running j c) after) same
silence-pings (suc k) m c after h = ground (arith, silence-pings k (m + 1) c after)

stopped-silence :
    (k : ℕ) (c : WebSocketConnection) → beats (stopped c) (silence k []) ≡ (stopped c, [])
unfolding beats
stopped-silence zero c = refl
stopped-silence (suc k) c = rw (stopped-silence k c) refl

given_up-silence :
    (k : ℕ) (c : WebSocketConnection)
    → ((beats (running 0 c) (silence k [])).1 ≡ given_up k)
      × ((beats (running 0 c) (silence k [])).0.heartbeat_timer ≡ leb k max_missed_pongs)
unfolding beats
given_up-silence zero c = (refl, refl)
given_up-silence (suc zero) c = (refl, refl)
given_up-silence (suc (suc zero)) c = (refl, refl)
given_up-silence (suc (suc (suc zero))) c = (refl, refl)
given_up-silence (suc (suc (suc (suc k)))) c =
    let over = record c { closed = false; missed_pongs = 4 } in
    ground (arith, stopped-silence k over)

pings-add : (j k : ℕ) (after : List Action) → pings (j + k) after ≡ pings j (pings k after)
pings-add zero k after = let same : zero + k ≡ k = omega arith in ap (λ i. pings i after) same
pings-add (suc j) k after =
    let step : suc j + k ≡ suc (j + k) = omega arith in
    ap (λ i. pings i after) step ∙ ap (◌∷◌ ping) (pings-add j k after)

answered-silence :
    (gaps : List ℕ) (k : ℕ) (c : WebSocketConnection)
    → All (λ gap. gap ≤ max_missed_pongs) gaps
    → ((beats (running 0 c) (answered gaps (silence k []))).1 ≡ pings (sum gaps) (given_up k))
      × ((beats (running 0 c) (answered gaps (silence k []))).0.heartbeat_timer
          ≡ leb k max_missed_pongs)
unfolding beats
answered-silence [] k c h = given_up-silence k c
answered-silence (gap ∷ gaps) k c h =
    let first = silence-pings gap 0 c (pong ∷ answered gaps (silence k [])) (omega (arith, h.0)) in
    let (acts, timer) = answered-silence gaps k c h.1 in
    (
      ap (λ r. r.1) first ∙ (ap (pings gap) acts ∙ sym (pings-add gap (sum gaps) (given_up k))),
      ap (λ r. r.0.heartbeat_timer) first ∙ timer,
    )

-- The heartbeat of an open connection, whose remote end answers after silences of at most three
-- intervals and then falls silent for so many intervals, without a close from either side: every
-- interval sends one ping, but for the fourth of the last silence, which terminates the socket and
-- clears the interval; from then on nothing is done.
pub start_heartbeat-silence :
    (gaps : List ℕ) (k : ℕ) (c : WebSocketConnection)
    → c.heartbeat_timer ≡ false
    → c.closed ≡ false
    → All (λ gap. gap ≤ max_missed_pongs) gaps
    → let (after, actions) = beats (start_heartbeat c) (answered gaps (silence k [])) in
      (actions ≡ pings (sum gaps) (given_up k)) × (after.heartbeat_timer ≡ leb k max_missed_pongs)
start_heartbeat-silence gaps k c idle alive h =
    let started : start_heartbeat c ≡ running 0 c =
      unfold start_heartbeat in ground (arith, idle, alive) in
    let (acts, timer) = answered-silence gaps k c h in
    (
      ap (λ d. (beats d (answered gaps (silence k []))).1) started ∙ acts,
      ap (λ d. (beats d (answered gaps (silence k []))).0.heartbeat_timer) started ∙ timer,
    )
