-- ===== src/Gossip/Health.antt =====
-- repram-mcp/src/node/gossip.ts: health checks. `pingPeers` awaits each send, and other handlers
-- run meanwhile: what the node finds when it goes on is given by `await_send`.
use repram.Common.{
  ℕ, ◌+◌, Bool, true, false, ◌&&◌, Option, none, some, List, [], ◌∷◌, ◌++◌, Str, leb, if◌then◌else◌,
}
use repram.Common.JsMap.{insert, lookup}
use repram.Wire.{NodeInfo, Message, ping, or_default}
use repram.Gossip.{Gossip, get_peers, protocol_message, count_message, remove_peer}
pub mod Eviction
pub mod Http

abbrev pub max_ping_failures : ℕ
max_ping_failures = 3

-- The state and the time after an awaited send, and whether the send was rejected.
pub record Awaited : Type 0 where
  pub gossip : Gossip
  pub now : ℕ
  pub failed : Bool

-- The catch block: the new failure count.
abbrev pub failures_of : Gossip → NodeInfo → ℕ
failures_of s peer = or_default 0 (lookup peer.id s.peer_failures) + 1

unfoldable pub evict : Gossip → List Str → Gossip
evict s [] = s
evict s (id ∷ ids) = evict (remove_peer s id) ids

module _ (await_send : ℕ → Gossip → NodeInfo → Message → Awaited) where
  -- One round of the loop: the state, the time, and the evictions pushed.
  unfoldable pub ping_peer : ℕ → Gossip → NodeInfo → Gossip × ℕ × List Str
  ping_peer now s peer =
      let r = await_send now (count_message s) peer (protocol_message now s ping peer.id none) in
      let failures = failures_of r.gossip peer in
      if r.failed
      then (
        record (r.gossip) { peer_failures = insert peer.id failures (r.gossip).peer_failures },
        r.now,
        if leb max_ping_failures failures then peer.id ∷ [] else [],
      )
      else (r.gossip, r.now, [])

  unfoldable pub ping_loop : ℕ → Gossip → List NodeInfo → List Str → Gossip × List Str
  ping_loop now s [] evictions = (s, evictions)
  ping_loop now s (peer ∷ peers) evictions =
      let (s', now', evicted) = ping_peer now s peer in
      ping_loop now' s' peers (evictions ++ evicted)

  unfoldable pub ping_peers : ℕ → Gossip → Gossip
  unfolding ping_loop evict
  ping_peers now s = let (s', evictions) = ping_loop now s (get_peers s) [] in evict s' evictions
