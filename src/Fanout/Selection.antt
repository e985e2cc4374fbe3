-- ===== src/Fanout/Selection.antt =====
-- repram-mcp/src/node/gossip.ts: a random selection is a part of the candidates, whatever is drawn.
use mathlib.Core.List.{Perm, append-nil}
use mathlib.Core.List.Perm
use repram.Common.{
  ℕ, zero, suc, ◌-◌, min, ◌≡◌, refl, ◌∙◌, leb→le, ap, some, List, [], ◌∷◌, ◌++◌, Str, leb, arith,
  length, drop, get_elem?, set, length-take, take-append-drop, Bool-cases, Option-cases, inl, inr,
}
use repram.Wire.{NodeInfo}
use repram.Fanout.{swap, shuffle, candidates, select_random_peers}

module _ {ℓ} {A : Type ℓ} where
  exchange-perm :
      (x b : A) (xs : List A) (j : ℕ) → get_elem? xs j ≡ some b → Perm (b ∷ set xs j x) (x ∷ xs)
  exchange-perm x b [] j h = cc
  exchange-perm x b (y ∷ ys) zero h = let e : y ≡ b = ground arith in rw e (Perm.swap x b ys)
  exchange-perm x b (y ∷ ys) (suc j) h =
      Perm.trans (Perm.swap y b _)
        (Perm.trans (Perm.cons y (exchange-perm x b ys j h)) (Perm.swap x y ys))

  swap-perm_at :
      (xs : List A) (i j : ℕ) (a b : A)
      → get_elem? xs i ≡ some a
      → get_elem? xs j ≡ some b
      → Perm (set (set xs i b) j a) xs
  swap-perm_at [] i j a b h k = cc
  swap-perm_at (x ∷ xs) zero zero a b h k = let e : x ≡ a = ground arith in rw e (Perm.refl _)
  swap-perm_at (x ∷ xs) zero (suc j) a b h k =
      let e : x ≡ a = ground arith in rw e (exchange-perm a b xs j k)
  swap-perm_at (x ∷ xs) (suc i) zero a b h k =
      let e : x ≡ b = ground arith in rw e (exchange-perm b a xs i h)
  swap-perm_at (x ∷ xs) (suc i) (suc j) a b h k = Perm.cons x (swap-perm_at xs i j a b h k)

  swap-perm : (i j : ℕ) (xs : List A) → Perm (swap i j xs) xs
  unfolding swap
  swap-perm i j xs = elim (Option-cases (get_elem? xs i)) [
    | inl e ↦ rw (e, swap) (Perm.refl xs)
    | inr (a, e) ↦ elim (Option-cases (get_elem? xs j)) [
      | inl f ↦ rw (e, f, swap) (Perm.refl xs)
      | inr (b, f) ↦ rw (e, f, swap) (swap-perm_at xs i j a b e f)
    ]
  ]

  length-set : (xs : List A) (i : ℕ) (v : A) → length (set xs i v) ≡ length xs
  length-set [] i v = refl
  length-set (x ∷ xs) zero v = refl
  length-set (x ∷ xs) (suc i) v = ap suc (length-set xs i v)

  length-swap : (i j : ℕ) (xs : List A) → length (swap i j xs) ≡ length xs
  unfolding swap
  length-swap i j xs = elim (Option-cases (get_elem? xs i)) [
    | inl e ↦ rw (e, swap)
    | inr (a, e) ↦ elim (Option-cases (get_elem? xs j)) [
      | inl f ↦ rw (e, f, swap)
      | inr (b, f) ↦ rw (e, f, swap) (length-set (set xs i b) j a ∙ length-set xs i b)
    ]
  ]

  shuffle-perm : (draw : ℕ → ℕ) (i : ℕ) (xs : List A) → Perm (shuffle draw i xs) xs
  unfolding shuffle
  shuffle-perm draw zero xs = Perm.refl xs
  shuffle-perm draw (suc i) xs =
      Perm.trans (shuffle-perm draw i (swap (suc i) (draw (suc i)) xs))
        (swap-perm (suc i) (draw (suc i)) xs)

  length-shuffle : (draw : ℕ → ℕ) (i : ℕ) (xs : List A) → length (shuffle draw i xs) ≡ length xs
  unfolding shuffle
  length-shuffle draw zero xs = refl
  length-shuffle draw (suc i) xs =
      length-shuffle draw i (swap (suc i) (draw (suc i)) xs) ∙ length-swap (suc i) (draw (suc i)) xs

-- Whatever is drawn, the selection has as many peers as asked for, or all candidates if they are
-- fewer, and with some rest it is a rearrangement of the candidates: nobody is made up, nobody is
-- picked twice, and the excluded peer is not in it.
pub select_random_peers-perm :
    (draw : ℕ → ℕ) (peers : List NodeInfo) (n : ℕ) (skip_id : Str)
    → (length (select_random_peers draw peers n skip_id)
        ≡ min n (length (candidates peers skip_id)))
      × ((rest : List NodeInfo) × Perm
            (select_random_peers draw peers n skip_id ++ rest)
            (candidates peers skip_id))
unfolding select_random_peers
select_random_peers-perm draw peers n skip_id = elim (Bool-cases (leb (length found) n)) [
  | inl few ↦ rw few (omega (arith, leb→le _ _ few), ([], rw (append-nil found) (Perm.refl found)))
  | inr many ↦ rw many (
    length-take n _ ∙ rw (length-shuffle draw (length found - 1) found),
    (
      drop n (shuffle draw (length found - 1) found),
      rw (take-append-drop n (shuffle draw (length found - 1) found))
          (shuffle-perm draw (length found - 1) found),
    ),
  )
]
  where
    found : List NodeInfo
    found = candidates peers skip_id
