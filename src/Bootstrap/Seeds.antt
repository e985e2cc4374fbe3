-- ===== src/Bootstrap/Seeds.antt =====
-- repram-mcp/src/node/bootstrap.ts: which seeds are asked, and whose answer is taken.
use repram.Common.{ℕ, ◌≡◌, refl, none, some, List, [], ◌∷◌, ◌++◌, Str, All}
use repram.Wire.{NodeInfo}
use repram.Auth.{Crypto}
use repram.Transport.{Request}
use repram.Server.Peers.{BootstrapRequest}
use repram.Bootstrap.{
  BootstrapReply, send_bootstrap_request, ask_seeds, other_than, bootstrap_request,
  bootstrap_from_peers,
}

module _ (crypto : Crypto) (stringify : BootstrapRequest → List ℕ) (cluster_secret : Str)
    (fetch : Request → BootstrapReply) (local_node : NodeInfo) where
  -- The seed answers with a list of peers, and it does not.
  abbrev pub Answers : Str → List NodeInfo → Type 0
  Answers seed peers =
      send_bootstrap_request crypto stringify cluster_secret fetch seed
        (bootstrap_request local_node)
      ≡ some peers

  abbrev pub Fails : Str → Type 0
  Fails seed =
      send_bootstrap_request crypto stringify cluster_secret fetch seed
        (bootstrap_request local_node)
      ≡ none

  abbrev asked_of : List Str → List NodeInfo × List Str
  asked_of seeds =
      ask_seeds crypto stringify cluster_secret fetch local_node (bootstrap_request local_node)
        seeds

  ask_seeds-first :
      (failed : List Str) (seed : Str) (rest : List Str) (peers : List NodeInfo)
      → All Fails failed
      → Answers seed peers
      → asked_of (failed ++ seed ∷ rest) ≡ (other_than local_node.id peers, failed ++ seed ∷ [])
  unfolding ask_seeds
  ask_seeds-first [] seed rest peers f a = rw (a, ask_seeds) refl
  ask_seeds-first (x ∷ failed) seed rest peers f a =
      rw (f.0, ask_seeds, ask_seeds-first failed seed rest peers f.1 a) refl

  ask_seeds-Fails : (failed : List Str) → All Fails failed → asked_of failed ≡ ([], failed)
  unfolding ask_seeds
  ask_seeds-Fails [] f = refl
  ask_seeds-Fails (x ∷ failed) f = rw (f.0, ask_seeds, ask_seeds-Fails failed f.1) refl

pub bootstrap_from_peers_lem :
    (crypto : Crypto) (stringify : BootstrapRequest → List ℕ) (cluster_secret : Str)
    (fetch : Request → BootstrapReply) (local_node : NodeInfo) (failed : List Str) (seed : Str)
    (rest : List Str) (peers : List NodeInfo)
    → All (Fails crypto stringify cluster_secret fetch local_node) failed
    → Answers crypto stringify cluster_secret fetch local_node seed peers
    → (bootstrap_from_peers crypto stringify cluster_secret fetch (failed ++ seed ∷ rest) local_node
        ≡ (other_than local_node.id peers, failed ++ seed ∷ []))
      × (bootstrap_from_peers crypto stringify cluster_secret fetch failed local_node
          ≡ ([], failed))
unfolding bootstrap_from_peers
bootstrap_from_peers_lem crypto stringify cluster_secret fetch local_node failed seed rest peers f
      a =
    (
      ask_seeds-first crypto stringify cluster_secret fetch local_node failed seed rest peers f a,
      ask_seeds-Fails crypto stringify cluster_secret fetch local_node failed f,
    )
