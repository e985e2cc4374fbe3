-- ===== src/Fanout.antt =====
-- repram-mcp/src/node/gossip.ts: how many peers a large enclave is sent to, and which ones.
use repram.Common.{
  ℕ, zero, suc, ◌+◌, ◌-◌, ◌*◌, max, Bool, not, Option, none, some, List, [], ◌∷◌, Str, ◌==◌, leb,
  if◌then◌else◌, length, take, get_elem?, set, filter_by,
}
use repram.Wire.{NodeInfo}
pub mod Size
pub mod Selection

-- `Math.ceil(Math.sqrt(n))`: the first k, counted up from the second argument, with n ≤ k². The
-- first argument bounds the rounds.
unfoldable pub ceil_sqrt_from : ℕ → ℕ → ℕ → ℕ
ceil_sqrt_from zero k n = k
ceil_sqrt_from (suc rounds) k n =
    let further = ceil_sqrt_from rounds (k + 1) n in if leb n (k * k) then k else further

unfoldable pub fanout_size : ℕ → ℕ
unfolding ceil_sqrt_from
fanout_size peer_count =
    if leb peer_count 0 then 0 else max (ceil_sqrt_from peer_count 0 peer_count) 1

module _ {ℓ} {A : Type ℓ} where
  -- `[xs[i], xs[j]] = [xs[j], xs[i]]`, for indices of the list.
  unfoldable pub swap : ℕ → ℕ → List A → List A
  swap i j xs = elim (get_elem? xs i) [
    | none ↦ xs
    | some a ↦ elim (get_elem? xs j) [ none ↦ xs | some b ↦ set (set xs i b) j a ]
  ]

  -- `for (let i = candidates.length - 1; i > 0; i--)`: the index drawn for i is `draw i`, which
  -- stands for `Math.floor(Math.random() * (i + 1))`.
  unfoldable pub shuffle : (ℕ → ℕ) → ℕ → List A → List A
  unfolding swap
  shuffle draw zero xs = xs
  shuffle draw (suc i) xs = shuffle draw i (swap (suc i) (draw (suc i)) xs)

-- `peers.filter((p) => p.id !== skipId)`
abbrev pub candidates : List NodeInfo → Str → List NodeInfo
candidates peers skip_id = filter_by (λ p. not (p.id == skip_id)) peers

unfoldable pub select_random_peers : (ℕ → ℕ) → List NodeInfo → ℕ → Str → List NodeInfo
unfolding shuffle
select_random_peers draw peers n skip_id =
    let found = candidates peers skip_id in
    if leb (length found) n then found else take n (shuffle draw (length found - 1) found)
