-- ===== src/Bootstrap/Startup.antt =====
-- repram-mcp/src/index.ts: `bootstrap` and `attachToSubstrate`, by which a node that starts joins the
-- mesh and, if it cannot be reached, attaches to a seed.
use repram.Common.{
  ℕ, ◌≡◌, ◌≢◌, refl, ◌∙◌, ap, sym, Bool, true, false, not, ◌&&◌, Bool-cases, inl, inr, Option, none,
  some, List, [], ◌∷◌, ◌++◌, Str, ◌==◌, js, truthy, nat_eq, filter_by, if◌then◌else◌, arith,
}
use repram.Wire.{NodeInfo}
use repram.Gossip.{Gossip, add_peer}
use repram.Tree.{Tree}
use repram.Tree.Attach.{
  Attempt, connected, unreachable, Answer, welcomed, refused, attach, try_alternative,
  welcomed_conn,
}
use repram.Bootstrap.{DnsResolver, resolve_bootstrap_dns, bootstrap_from_peers}
pub mod Joining

-- `REPRAM_PEERS`, cut at commas and trimmed by JavaScript, without the empty parts.
unfoldable pub named_seeds : (Str → List Str) → Option Str → List Str
named_seeds split_trim none = []
named_seeds split_trim (some peers_env) =
    if truthy peers_env then filter_by truthy (split_trim peers_env) else []

abbrev pub is_empty {ℓ} : {A : Type ℓ} → List A → Bool
is_empty [] = true
is_empty (x ∷ xs) = false

-- The seeds: those that are named, and for the public network, without any, those of DNS.
unfoldable pub seed_peers : DnsResolver → Str → List Str → List Str
unfolding resolve_bootstrap_dns
seed_peers resolver network named =
    if network == js "public" && is_empty named
    then resolve_bootstrap_dns resolver (js "bootstrap.repram.network") 9090
    else named

-- `for (const peer of discovered) gossip.addPeer(peer)`
unfoldable pub add_peers : Gossip → List NodeInfo → Gossip
unfolding add_peer
add_peers g [] = g
add_peers g (p ∷ ps) = add_peers (add_peer g p) ps

-- The first two parts of `seed.split(":")`; the second is missing if there is no colon.
abbrev pub before_colon : Str → Str
before_colon [] = []
before_colon (c ∷ s) = if nat_eq c 58 then [] else c ∷ before_colon s

abbrev pub after_colon : Str → Option Str
after_colon [] = none
after_colon (c ∷ s) = if nat_eq c 58 then some (before_colon s) else after_colon s

-- The address and the port of a seed; none where one of them is missing or the port is not a number.
unfoldable pub seed_address : (Str → Option ℕ) → Str → Option (Str × ℕ)
seed_address parse_int seed =
    if truthy (before_colon seed)
    then elim (after_colon seed) [
      | none ↦ none
      | some port ↦ elim (parse_int port) [
        | none ↦ none
        | some number ↦ some (before_colon seed, number)
      ]
    ]
    else none

-- What the attempt at a seed comes to; no attempt is made without an address.
unfoldable pub attempt_at : (Str → Option ℕ) → (Str → ℕ → Attempt) → Str → Attempt
unfolding seed_address
attempt_at parse_int network seed = elim (seed_address parse_int seed) [
  | none ↦ unreachable
  | some (address, port) ↦ network address port
]

-- `attachToSubstrate`: the tree, and whether a seed has become the parent.
unfoldable pub attach_to_substrate : (Str → Attempt) → Tree → List Str → Tree × Bool
attach_to_substrate attempt t [] = (t, false)
attach_to_substrate attempt t (seed ∷ seeds) =
    let (t', attached) = try_alternative t (attempt seed) in
    let rest = attach_to_substrate attempt t' seeds in if attached then (t', true) else rest

-- The connection of the first seed that welcomes the node.
unfoldable pub first_parent : (Str → Attempt) → List Str → Option ℕ
first_parent attempt [] = none
first_parent attempt (seed ∷ seeds) = elim (welcomed_conn (attempt seed)) [
  | some conn ↦ some conn
  | none ↦ first_parent attempt seeds
]

-- Without seeds nothing is done; otherwise the gossip has the peers that were found, and a node that
-- cannot be reached attaches to a seed.
unfoldable pub bootstrap :
    (List Str → NodeInfo → List NodeInfo × List Str)
    → (Str → Attempt)
    → Str
    → List Str
    → Gossip
    → Tree
    → Gossip × Tree
unfolding add_peers attach_to_substrate
bootstrap ask attempt inbound [] g t = (g, t)
bootstrap ask attempt inbound (seed ∷ seeds) g t =
    let (discovered, asked) = ask (seed ∷ seeds) g.local_node in
    let joined = add_peers g discovered in
    if inbound == js "true"
    then (joined, t)
    else (joined, (attach_to_substrate attempt t (seed ∷ seeds)).0)

abbrev pub is_parent : Option ℕ → Bool
is_parent none = false
is_parent (some conn) = true

abbrev Attaches : (Str → Attempt) → List Str → Type 0
Attaches attempt seeds =
    (t : Tree)
    → t.parent ≡ none
    → ((attach_to_substrate attempt t seeds).0.parent ≡ first_parent attempt seeds)
      × ((attach_to_substrate attempt t seeds).1
          ≡ is_parent (attach_to_substrate attempt t seeds).0.parent)

attach-next :
    (attempt : Str → Attempt) (seed : Str) (seeds : List Str) (a : Attempt)
    → attempt seed ≡ a
    → Attaches attempt seeds
    → Attaches attempt (seed ∷ seeds)
unfolding attach_to_substrate try_alternative attach first_parent
attach-next attempt seed seeds unreachable h rest t e = rw (h, first_parent) (rest t e)
attach-next attempt seed seeds (connected conn refused) h rest t e = rw (h, first_parent) (rest _ e)
attach-next attempt seed seeds (connected conn (welcomed p)) h rest t e =
    rw (h, first_parent) (refl, refl)

Attaches-all : (attempt : Str → Attempt) (seeds : List Str) → Attaches attempt seeds
Attaches-all attempt [] = unfold attach_to_substrate first_parent in λ t e. (e, ground (arith, e))
Attaches-all attempt (seed ∷ seeds) =
    attach-next attempt seed seeds (attempt seed) refl (Attaches-all attempt seeds)

-- A node without a parent that attaches to the seeds gets the first, in their order, that has an
-- address, can be reached and welcomes it, and the answer says whether there is one.
pub attach_to_substrate_lem :
    (attempt : Str → Attempt) (t : Tree) (seeds : List Str)
    → t.parent ≡ none
    → let (after, attached) = attach_to_substrate attempt t seeds in
      (after.parent ≡ first_parent attempt seeds) × (attached ≡ is_parent after.parent)
attach_to_substrate_lem attempt t seeds h = Attaches-all attempt seeds t h
