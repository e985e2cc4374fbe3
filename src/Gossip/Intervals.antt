-- ===== src/Gossip/Intervals.antt =====
-- repram-mcp/src/node/gossip.ts: `start` and `stop`, with the intervals that the process holds. What
-- an interval does is in Gossip/Health, Gossip/Broadcast and Seen.
use repram.Common.{
  ℕ, ◌+◌, ◌≤◌, ◌<◌, ◌≡◌, refl, ap, ◌∙◌, Bool, true, false, not, Option, none, some, List, [], ◌∷◌,
  nat_eq, if◌then◌else◌, length, filter_by, All, arith, subst, sym,
}
use repram.Gossip.{Gossip}

-- `setInterval` numbers the intervals; `live` are those that were not cleared.
pub record Intervals : Type 0 where
  pub health_check_timer : Option ℕ
  pub topology_sync_timer : Option ℕ
  pub stopped : Bool
  pub live : List ℕ
  pub next : ℕ

unfoldable pub init : Intervals
init = record {
  health_check_timer = none;
  topology_sync_timer = none;
  stopped = false;
  live = [];
  next = 0;
}

-- Both intervals are set anew, whatever the fields held.
unfoldable pub set_both : Intervals → Intervals
set_both t = record {
  health_check_timer = some t.next;
  topology_sync_timer = some (t.next + 1);
  stopped = false;
  live = (t.next + 1) ∷ t.next ∷ t.live;
  next = t.next + 2;
}

-- `none` where the transport is not set, and the call throws.
unfoldable pub start : Gossip → Intervals → Option Intervals
start s t = if s.has_transport then some (set_both t) else none

unfoldable pub clear : Option ℕ → List ℕ → List ℕ
clear none live = live
clear (some timer) live = filter_by (λ i. not (nat_eq i timer)) live

unfoldable pub stop : Intervals → Intervals
stop t = record {
  health_check_timer = none;
  topology_sync_timer = none;
  stopped = true;
  live = clear t.topology_sync_timer (clear t.health_check_timer t.live);
  next = t.next;
}

pub data Call : Type 0 where
  starting stopping : Call

-- The calls on a protocol whose transport is set.
unfoldable pub run : Intervals → List Call → Intervals
run t [] = t
run t (starting ∷ calls) = run (set_both t) calls
run t (stopping ∷ calls) = run (stop t) calls

-- Two intervals of the protocol if it is running, and two for each start while it was.
unfoldable pub held : Bool → List Call → ℕ
held running [] = if running then 2 else 0
held running (starting ∷ calls) = let rest = held true calls in if running then 2 + rest else rest
held running (stopping ∷ calls) = held false calls

-- The fields are clear, or they hold the two youngest intervals; the others are `left`.
data Holds (t : Intervals) (left : List ℕ) : Bool → Type 0 where
  idle :
      t.health_check_timer ≡ none
      → t.topology_sync_timer ≡ none
      → t.live ≡ left
      → All (λ i. i < t.next) left
      → Holds t left false
  active :
      (a : ℕ)
      → t.health_check_timer ≡ some a
      → t.topology_sync_timer ≡ some (a + 1)
      → t.live ≡ (a + 1) ∷ a ∷ left
      → t.next ≡ a + 2
      → All (λ i. i < a) left
      → Holds t left true

clear-younger :
    (timer : ℕ) (left : List ℕ) → All (λ i. i < timer) left → clear (some timer) left ≡ left
unfolding clear
clear-younger timer [] h = refl
clear-younger timer (i ∷ left) h = ground (arith, clear-younger timer left h.1, h.0)

All-weaken : (a b : ℕ) (left : List ℕ) → All (λ i. i < a) left → a ≤ b → All (λ i. i < b) left
All-weaken a b [] h le = tt
All-weaken a b (i ∷ left) h le = ground (arith, h.0, le, All-weaken a b left h.1 le)

stop-live :
    (t : Intervals) (a : ℕ) (left : List ℕ)
    → t.health_check_timer ≡ some a
    → t.topology_sync_timer ≡ some (a + 1)
    → t.live ≡ (a + 1) ∷ a ∷ left
    → All (λ i. i < a) left
    → (stop t).live ≡ left
unfolding stop
stop-live t a left h k l younger =
    let first = clear-younger a left younger in
    let second = clear-younger (a + 1) left (All-weaken a (a + 1) left younger (omega arith)) in
    rw (h, k, l) (unfold clear in ground (arith, first, second))

stop-Holds :
    (t : Intervals) (left : List ℕ) (running : Bool)
    → Holds t left running
    → Holds (stop t) left false
stop-Holds t left false (idle h k l younger) =
    idle (unfold stop in refl) (unfold stop in refl) (unfold stop clear in rw (h, k) l)
      (unfold stop in younger)
stop-Holds t left true (active a h k l n younger) =
    idle (unfold stop in refl) (unfold stop in refl) (stop-live t a left h k l younger)
      (unfold stop in All-weaken a t.next left younger (omega arith))

set_both-Holds :
    (t : Intervals) (left : List ℕ) (running : Bool)
    → Holds t left running
    → Holds (set_both t) t.live true
unfolding set_both
set_both-Holds t left false (idle h k l younger) =
    active t.next refl refl refl refl (subst (All (λ i. i < t.next)) (sym l) younger)
set_both-Holds t left true (active a h k l n younger) =
    let older = All-weaken a t.next left younger (omega arith) in
    active t.next refl refl refl refl
      (subst (All (λ i. i < t.next)) (sym l) (omega arith, (omega arith, older)))

Holds-length :
    (t : Intervals) (left : List ℕ) (running : Bool)
    → Holds t left running
    → length t.live ≡ (if running then 2 else 0) + length left
Holds-length t left false (idle h k l younger) = ap length l ∙ omega arith
Holds-length t left true (active a h k l n younger) = ap length l ∙ omega arith

run-Holds :
    (t : Intervals) (left : List ℕ) (running : Bool) (calls : List Call)
    → Holds t left running
    → length (run t calls).live ≡ held running calls + length left
unfolding run held
run-Holds t left running [] h = Holds-length t left running h
run-Holds t left false (starting ∷ calls) h =
    let rest = run-Holds (set_both t) t.live true calls (set_both-Holds t left false h) in
    let size = Holds-length t left false h in omega arith
run-Holds t left true (starting ∷ calls) h =
    let rest = run-Holds (set_both t) t.live true calls (set_both-Holds t left true h) in
    let size = Holds-length t left true h in omega arith
run-Holds t left running (stopping ∷ calls) h =
    run-Holds (stop t) left false calls (stop-Holds t left running h)

-- After any calls of `start` and `stop` on a new protocol with a transport, the process holds two
-- intervals if the last call was a start, and two more for every start that came while the protocol
-- was running: no stop clears those.
pub run-held : (calls : List Call) → length (run init calls).live ≡ held false calls
run-held calls = run-Holds init [] false calls (unfold init in idle refl refl refl tt) ∙ omega arith
