-- ===== src/Gossip/Health/Http.antt =====
-- repram-mcp/src/node/gossip.ts over repram-mcp/src/node/transport.ts: the health check with the
-- transport that the node uses.
use repram.Common.{ℕ, ◌≡◌, refl, ◌∙◌, Bool, true, false, List, [], ◌∷◌, ◌++◌, Str}
use repram.Common.JsMap.{values}
use repram.Wire.{NodeInfo, Message, WireMessage, Base64}
use repram.Auth.{Crypto}
use repram.Transport.{Request, FetchOutcome, Settled, resolved, rejected, settle, send}
use repram.Gossip.{Gossip}
use repram.Gossip.Health.{Awaited, ping_peer, ping_loop, ping_peers, evict}
use repram.Gossip.Health.Eviction.{ping_loop-accepted}

abbrev pub is_rejected : Settled → Bool
is_rejected (resolved log) = false
is_rejected rejected = true

module _ (b64 : Base64) (crypto : Crypto) (stringify : WireMessage → List ℕ)
    (cluster_secret : Str) where
  module _ (fetch : Request → FetchOutcome) where
    -- Awaiting `HTTPTransport.send` while nothing else happens.
    abbrev pub http_await : ℕ → Gossip → NodeInfo → Message → Awaited
    http_await now s peer msg = record {
      gossip = s;
      now = now;
      failed = is_rejected (send b64 crypto stringify cluster_secret fetch peer msg);
    }

    http_await-accepted :
        (now : ℕ) (s : Gossip) (peer : NodeInfo) (msg : Message)
        → (http_await now s peer msg).failed ≡ false
    unfolding send
    http_await-accepted now s peer msg = not_rejected _
      where
        not_rejected : (o : FetchOutcome) → is_rejected (settle o) ≡ false
        not_rejected (FetchOutcome.response true) = refl
        not_rejected (FetchOutcome.response false) = refl
        not_rejected FetchOutcome.aborted = refl
        not_rejected FetchOutcome.failed = refl

    ping_peer-kept :
        (now : ℕ) (s : Gossip) (p : NodeInfo)
        → ((ping_peer http_await now s p).0.peers ≡ s.peers)
          × ((ping_peer http_await now s p).0.peer_failures ≡ s.peer_failures)
    unfolding ping_peer
    ping_peer-kept now s p = rw (http_await-accepted now s p) (refl, refl)

    ping_loop-kept :
        (now : ℕ) (s : Gossip) (peers : List NodeInfo) (evictions : List Str)
        → ((ping_loop http_await now s peers evictions).0.peers ≡ s.peers)
          × ((ping_loop http_await now s peers evictions).0.peer_failures ≡ s.peer_failures)
    unfolding ping_loop
    ping_loop-kept now s [] evictions = (refl, refl)
    ping_loop-kept now s (p ∷ peers) evictions =
        let (s', now', evicted) = ping_peer http_await now s p in
        let rest = ping_loop-kept now' s' peers (evictions ++ evicted) in
        let first = ping_peer-kept now s p in (rest.0 ∙ first.0, rest.1 ∙ first.1)

    -- Over the HTTP transport a round of pings counts no failure and evicts no peer, even if every
    -- request fails or times out: the transport catches the error and its promise resolves.
    pub ping_peers-http :
        (now : ℕ) (s : Gossip)
        → ((ping_peers http_await now s).peers ≡ s.peers)
          × ((ping_peers http_await now s).peer_failures ≡ s.peer_failures)
    unfolding ping_peers evict
    ping_peers-http now s =
        let nobody = ping_loop-accepted http_await http_await-accepted now s (values s.peers) [] in
        let kept = ping_loop-kept now s (values s.peers) [] in rw (nobody, evict) kept
