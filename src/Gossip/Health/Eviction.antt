-- ===== src/Gossip/Health/Eviction.antt =====
-- repram-mcp/src/node/gossip.ts: which peers a round of pings evicts.
use mathlib.Core.List.{append-nil}
use repram.Common.{
  ℕ, ◌+◌, ◌≡◌, refl, ◌∙◌, Bool, false, ◌&&◌, ◌||◌, none, some, List, [], ◌∷◌, ◌++◌, Str, ◌==◌,
  includes, includes-append, arith, leb, if◌then◌else◌,
}
use repram.Common.JsMap.{
  JsMap, IsMap, Each, has, lookup, values, lookup-insert, lookup-erase, lookup-has, has-lookup,
}
use repram.Wire.{NodeInfo, Message, or_default}
use repram.Gossip.{Gossip, remove_peer}
use repram.Gossip.Invariant.{IsValid, IsKeyed}
use repram.Gossip.Health.{Awaited, max_ping_failures, ping_peer, ping_loop, evict, ping_peers}

-- Nothing else happens while a ping is awaited, and `fails` says which pings are rejected.
abbrev pub quiet : (Str → Bool) → ℕ → Gossip → NodeInfo → Message → Awaited
quiet fails now s peer msg = record { gossip = s; now = now; failed = fails peer.id }

-- An evicted peer is gone with its failure count, and no other is touched.
lookup-evict :
    (s : Gossip) (ids : List Str) (k : Str)
    → (lookup k (evict s ids).peers ≡ (if includes k ids then none else lookup k s.peers))
      × (lookup k (evict s ids).peer_failures
          ≡ (if includes k ids then none else lookup k s.peer_failures))
unfolding evict includes remove_peer
lookup-evict s [] k = (refl, refl)
lookup-evict s (id ∷ ids) k = ground (
  arith,
  lookup-evict (remove_peer s id) ids k,
  lookup-erase id k s.peers,
  lookup-erase id k s.peer_failures,
)

-- The failures of a peer after a rejected ping.
abbrev pub next_failures : Gossip → Str → ℕ
next_failures s k = or_default 0 (lookup k s.peer_failures) + 1

module _ (fails : Str → Bool) where
  -- What a loop over the entries of `m`, from the state `s`, leaves in `r`.
  record Pinged (m : JsMap NodeInfo) (s : Gossip) (evictions : List Str) (r : Gossip × List Str)
      : Type 0 where
    same_peers : (r.0).peers ≡ s.peers
    failures :
        (k : Str)
        → lookup k (r.0).peer_failures
          ≡ (if has k m && fails k then some (next_failures s k) else lookup k s.peer_failures)
    evicted :
        (k : Str)
        → includes k r.1 ≡ (
            includes k evictions
            || (has k m && (fails k && leb max_ping_failures (next_failures s k))))

  ping_peer-quiet :
      (now : ℕ) (s : Gossip) (p : NodeInfo) (k : Str)
      → ((ping_peer (quiet fails) now s p).0.peers ≡ s.peers)
        × (lookup k (ping_peer (quiet fails) now s p).0.peer_failures
            ≡ (if p.id == k && fails k then some (next_failures s k) else lookup k s.peer_failures))
        × (includes k (ping_peer (quiet fails) now s p).2
            ≡ (p.id == k && (fails k && leb max_ping_failures (next_failures s k))))
  unfolding ping_peer includes
  ping_peer-quiet now s p k =
      ground (arith, lookup-insert p.id k (next_failures s p.id) s.peer_failures)

  ping_loop-Pinged :
      (now : ℕ) (s : Gossip) (m : JsMap NodeInfo) (evictions : List Str)
      → IsMap m
      → Each IsKeyed m
      → Pinged m s evictions (ping_loop (quiet fails) now s (values m) evictions)
  unfolding ping_loop has
  ping_loop-Pinged now s [] evictions d h = record {
    same_peers = refl;
    failures = λ k. refl;
    evicted = λ k. ground arith;
  }
  ping_loop-Pinged now s ((j, p) ∷ m) evictions d h =
      let (s', now', evicted) = ping_peer (quiet fails) now s p in
      let rest = ping_loop-Pinged now' s' m (evictions ++ evicted) d.1 h.1 in
      record {
        same_peers = rest.same_peers ∙ (ping_peer-quiet now s p j).0;
        failures = λ k.
            ground (arith, rest.failures k, ping_peer-quiet now s p k, lookup-has j m d.0, h.0.0);
        evicted = λ k. ground (
          arith,
          rest.evicted k,
          ping_peer-quiet now s p k,
          lookup-has j m d.0,
          h.0.0,
          includes-append k evictions evicted,
        );
      }

  -- One round of pings in which nothing else happens: a peer is evicted exactly when its ping is
  -- rejected and that makes at least 3 failures since it was last heard; its count grows by one
  -- with a rejected ping, goes with an evicted peer, and is kept by an accepted ping.
  pub ping_peers-quiet :
      (now : ℕ) (s : Gossip) (k : Str)
      → IsValid s
      → (lookup k (ping_peers (quiet fails) now s).peers ≡ (
          if fails k && leb max_ping_failures (next_failures s k) then none else lookup k s.peers))
        × (lookup k (ping_peers (quiet fails) now s).peer_failures ≡ (
            if has k s.peers && fails k
            then (if leb max_ping_failures (next_failures s k)
                then none
                else some (next_failures s k))
            else lookup k s.peer_failures))
  unfolding ping_peers
  ping_peers-quiet now s k v =
      let (s', evictions) = ping_loop (quiet fails) now s (values s.peers) [] in
      let done = ping_loop-Pinged now s s.peers [] v.distinct v.keyed in
      let gone = done.evicted k in
      let nobody : includes k [] ≡ false = unfold includes in refl in
      ground (
        arith,
        lookup-evict s' evictions k,
        done.failures k,
        done.same_peers,
        gone,
        nobody,
        has-lookup k s.peers,
      )

-- A send that is not rejected: nobody is evicted and no failure is counted.
ping_peer-accepted :
    (await_send : ℕ → Gossip → NodeInfo → Message → Awaited)
    → ((now : ℕ) (s : Gossip) (p : NodeInfo) (msg : Message)
        → (await_send now s p msg).failed ≡ false)
    → (now : ℕ) (s : Gossip) (p : NodeInfo) → (ping_peer await_send now s p).2 ≡ []
unfolding ping_peer
ping_peer-accepted await_send never now s p = rw never

-- A transport whose sends are never rejected: no round of pings evicts anyone, whatever handlers
-- run while the pings are awaited.
pub ping_loop-accepted :
    (await_send : ℕ → Gossip → NodeInfo → Message → Awaited)
    → ((now : ℕ) (s : Gossip) (p : NodeInfo) (msg : Message)
        → (await_send now s p msg).failed ≡ false)
    → (now : ℕ) (s : Gossip) (peers : List NodeInfo) (evictions : List Str)
    → (ping_loop await_send now s peers evictions).1 ≡ evictions
unfolding ping_loop
ping_loop-accepted await_send never now s [] evictions = refl
ping_loop-accepted await_send never now s (p ∷ peers) evictions =
    let (s', now', evicted) = ping_peer await_send now s p in
    ping_loop-accepted await_send never now' s' peers (evictions ++ evicted)
    ∙ rw (ping_peer-accepted await_send never now s p) (append-nil evictions)
