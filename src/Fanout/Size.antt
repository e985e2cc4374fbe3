-- ===== src/Fanout/Size.antt =====
-- repram-mcp/src/node/gossip.ts: `fanoutSize` is the square root, rounded up.
use repram.Common.{
  Bool-cases, inl, inr, leb→le, leb-false→lt, ℕ, zero, suc, ◌+◌, ◌-◌, ◌*◌, ◌≤◌, ◌<◌, ◌≡◌, arith,
  leb,
}
use repram.Fanout.{ceil_sqrt_from, fanout_size}

le-square : (k : ℕ) → k ≤ k * k
le-square zero = omega arith
le-square (suc k) = grind arith

-- From a start whose predecessor is too small, and with enough rounds, the search ends at the root.
ceil_sqrt_from_lem :
    (rounds k n : ℕ)
    → n ≤ rounds + k
    → (0 < k → (k - 1) * (k - 1) < n)
    → 0 < n
    → (n ≤ ceil_sqrt_from rounds k n * ceil_sqrt_from rounds k n)
      × ((ceil_sqrt_from rounds k n - 1) * (ceil_sqrt_from rounds k n - 1) < n)
      × (0 < ceil_sqrt_from rounds k n)
unfolding ceil_sqrt_from
ceil_sqrt_from_lem zero k n h low p = (omega (arith, le-square k), low (omega arith), omega arith)
ceil_sqrt_from_lem (suc rounds) k n h low p = elim (Bool-cases (leb n (k * k))) [
  | inl enough ↦
      let root = leb→le n (k * k) enough in
      let pos : 0 < k = root_pos k root in rw enough (root, low pos, pos)
  | inr short ↦
      let below = leb-false→lt n (k * k) short in
      rw short (ceil_sqrt_from_lem rounds (k + 1) n (omega arith) (λ _. prev_lt k below) p)
]
  where
    root_pos : (j : ℕ) → n ≤ j * j → 0 < j
    root_pos zero r = absurd (omega arith)
    root_pos (suc j) r = omega arith

    prev_lt : (j : ℕ) → j * j < n → (j + 1 - 1) * (j + 1 - 1) < n
    prev_lt j r = let e : j + 1 - 1 ≡ j = omega arith in rw e r

-- The fanout of a group of peers is the least number whose square is at least the number of peers:
-- f² covers it and (f - 1)² does not. It is at least 1, and never more than there are peers.
pub fanout_size_lem :
    (n : ℕ)
    → 0 < n
    → (n ≤ fanout_size n * fanout_size n)
      × ((fanout_size n - 1) * (fanout_size n - 1) < n)
      × (0 < fanout_size n)
      × (fanout_size n ≤ n)
unfolding fanout_size
fanout_size_lem n p =
    let (covers, least, pos) =
      ceil_sqrt_from_lem n 0 n (omega arith) (λ q. absurd (omega arith)) p in
    let root = ceil_sqrt_from n 0 n in
    let at_root : fanout_size n ≡ root = ground arith in
    rw at_root (covers, least, pos, omega (arith, le-square (root - 1)))
