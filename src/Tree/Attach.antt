-- ===== src/Tree/Attach.antt =====
-- repram-mcp/src/node/tree.ts: a transient node attaches to a parent, loses it, and tries the
-- alternatives that a goodbye names. What the network answers is an argument; the callback that wires
-- up a new parent and its heartbeat are left out.
use repram.Common.{
  ℕ, ◌≡◌, refl, Bool, true, false, Option, none, some, List, [], ◌∷◌, Str, if◌then◌else◌, arith,
  ◌∙◌, ◌||◌, nat_eq,
}
use repram.Tree.{Tree, transient, Alternative, update_conn, close_conn}

-- What `attach` waits for: a welcome with the parent's id, or a goodbye, a close or the timeout.
pub data Answer : Type 0 where
  welcomed : Str → Answer
  refused : Answer

-- What the attempt at one alternative comes to: no connection, or one with an answer.
pub data Attempt : Type 0 where
  unreachable : Attempt
  connected : ℕ → Answer → Attempt

-- `attach`: the state, and whether a welcome came.
unfoldable pub attach : Tree → ℕ → Answer → Tree × Bool
attach t conn (welcomed parent_id) = (
  record t {
    parent = some conn;
    role = transient;
    parent_listeners = conn ∷ t.parent_listeners;
    conns = update_conn t.conns conn (record (t.conns conn) { remote_node_id = some parent_id });
  },
  true,
)
attach t conn refused = (t, false)

unfoldable pub listens : ℕ → List ℕ → Bool
listens conn [] = false
listens conn (c ∷ cs) = nat_eq c conn || listens conn cs

-- The close of a connection, where `attach` may have left its listener.
unfoldable pub on_parent_close : Tree → ℕ → Tree
unfolding listens
on_parent_close t conn = if listens conn t.parent_listeners then record t { parent = none } else t

-- One alternative of the loop: the state, and whether the loop returns.
unfoldable pub try_alternative : Tree → Attempt → Tree × Bool
try_alternative t unreachable = (t, false)
try_alternative t (connected conn answer) =
    let (t', attached) = attach t conn answer in
    if attached then (t', true) else (record t' { conns = close_conn t'.conns (some conn) }, false)

-- The loop over the alternatives in their order.
unfoldable pub try_alternatives : Tree → List Alternative → (Alternative → Attempt) → Tree
try_alternatives t [] network = t
try_alternatives t (alt ∷ alts) network =
    let (t', attached) = try_alternative t (network alt) in
    let rest = try_alternatives t' alts network in if attached then t' else rest

-- `reattachToAlternative`; the flag is cleared on every way out.
unfoldable pub reattach_to_alternative : Tree → List Alternative → (Alternative → Attempt) → Tree
unfolding try_alternatives
reattach_to_alternative t alternatives network =
    if t.reattaching
    then t
    else record (try_alternatives (record t { reattaching = true }) alternatives network) {
      reattaching = false;
    }

-- The parent says goodbye: no parent, and the alternatives are tried if there are any.
unfoldable pub on_goodbye : Tree → List Alternative → (Alternative → Attempt) → Tree
unfolding reattach_to_alternative
on_goodbye t [] network = record t { parent = none }
on_goodbye t (alt ∷ alts) network =
    reattach_to_alternative (record t { parent = none }) (alt ∷ alts) network

-- The connection of the first alternative that welcomes the node.
abbrev pub welcomed_conn : Attempt → Option ℕ
welcomed_conn unreachable = none
welcomed_conn (connected conn refused) = none
welcomed_conn (connected conn (welcomed p)) = some conn

unfoldable pub first_welcome : List Alternative → (Alternative → Attempt) → Option ℕ
first_welcome [] network = none
first_welcome (alt ∷ alts) network = elim (welcomed_conn (network alt)) [
  | some conn ↦ some conn
  | none ↦ first_welcome alts network
]

abbrev Finds : List Alternative → (Alternative → Attempt) → Type 0
Finds alts network =
    (t : Tree)
    → t.parent ≡ none
    → (try_alternatives t alts network).parent ≡ first_welcome alts network

Finds-next :
    (alt : Alternative) (alts : List Alternative) (network : Alternative → Attempt) (a : Attempt)
    → network alt ≡ a
    → Finds alts network
    → Finds (alt ∷ alts) network
unfolding try_alternatives try_alternative attach first_welcome
Finds-next alt alts network unreachable h rest t e = rw (h, first_welcome) (rest t e)
Finds-next alt alts network (connected conn refused) h rest t e = rw (h, first_welcome) (rest _ e)
Finds-next alt alts network (connected conn (welcomed p)) h rest t e = rw (h, first_welcome) refl

Finds-all : (alts : List Alternative) (network : Alternative → Attempt) → Finds alts network
Finds-all [] network = unfold try_alternatives first_welcome in λ t e. e
Finds-all (alt ∷ alts) network =
    Finds-next alt alts network (network alt) refl (Finds-all alts network)

-- After a goodbye, the node's parent is the first alternative, in the order given, that can be
-- reached and welcomes it, and it has no parent if there is none. In both cases the node is ready
-- to reattach again.
pub on_goodbye-parent :
    (t : Tree) (alts : List Alternative) (network : Alternative → Attempt)
    → t.reattaching ≡ false
    → ((on_goodbye t alts network).parent ≡ first_welcome alts network)
      × ((on_goodbye t alts network).reattaching ≡ false)
unfolding on_goodbye
on_goodbye-parent t [] network h = (unfold first_welcome in refl, h)
on_goodbye-parent t (alt ∷ alts) network h =
    let found =
      Finds-all (alt ∷ alts) network (record t { parent = none; reattaching = true }) refl in
    rw h (found, refl)

-- The listeners stay on a connection, whatever the later attempts come to.
abbrev Keeps : List Alternative → (Alternative → Attempt) → Type 0
Keeps alts network =
    (t : Tree) (conn : ℕ)
    → listens conn t.parent_listeners ≡ true
    → listens conn (try_alternatives t alts network).parent_listeners ≡ true

Keeps-next :
    (alt : Alternative) (alts : List Alternative) (network : Alternative → Attempt) (a : Attempt)
    → network alt ≡ a
    → Keeps alts network
    → Keeps (alt ∷ alts) network
unfolding try_alternatives try_alternative attach listens
Keeps-next alt alts network unreachable h rest t conn e = rw h (rest t conn e)
Keeps-next alt alts network (connected c refused) h rest t conn e = rw h (rest _ conn e)
Keeps-next alt alts network (connected c (welcomed p)) h rest t conn e = rw h (ground (arith, e))

Keeps-all : (alts : List Alternative) (network : Alternative → Attempt) → Keeps alts network
Keeps-all [] network = unfold try_alternatives in λ t conn e. e
Keeps-all (alt ∷ alts) network =
    Keeps-next alt alts network (network alt) refl (Keeps-all alts network)

on_goodbye-listens :
    (t : Tree) (alts : List Alternative) (network : Alternative → Attempt) (conn : ℕ)
    → t.reattaching ≡ false
    → listens conn t.parent_listeners ≡ true
    → listens conn (on_goodbye t alts network).parent_listeners ≡ true
unfolding on_goodbye reattach_to_alternative
on_goodbye-listens t [] network conn ready h = h
on_goodbye-listens t (alt ∷ alts) network conn ready h =
    rw ready
      (Keeps-all (alt ∷ alts) network (record t { parent = none; reattaching = true }) conn h)

-- Once a node has moved from a parent that said goodbye to the first alternative that welcomes it,
-- whatever the attempts before that one came to, the close of the old connection leaves it without a
-- parent, since the listener is still there; the connections stay as they are, and so the new one is
-- not closed by it.
pub on_parent_close-moved :
    (t : Tree) (old new : ℕ) (old_id : Str) (alts : List Alternative)
    (network : Alternative → Attempt)
    → t.reattaching ≡ false
    → first_welcome alts network ≡ some new
    → let moved = on_goodbye (attach t old (welcomed old_id)).0 alts network in
      (moved.parent ≡ some new)
      × ((on_parent_close moved old).parent ≡ none)
      × ((on_parent_close moved old).conns ≡ moved.conns)
unfolding on_parent_close
on_parent_close-moved t old new old_id alts network ready found =
    let attached = (attach t old (welcomed old_id)).0 in
    let still : attached.reattaching ≡ false = (unfold attach in ready) in
    let listening : listens old attached.parent_listeners ≡ true =
      (unfold attach listens in ground arith) in
    let kept = on_goodbye-listens attached alts network old still listening in
    let (arrived, _) = on_goodbye-parent attached alts network still in
    (arrived ∙ found, rw kept refl, rw kept refl)
