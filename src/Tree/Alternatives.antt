-- ===== src/Tree/Alternatives.antt =====
-- repram-mcp/src/node/tree.ts: the substrates that a redirect or a goodbye suggests.
use repram.Common.{
  ℕ, zero, suc, ◌<◌, ◌⊎◌, inl, inr, ltb, ltb→lt, ltb-false→le, Bool-cases, sym, subst, ◌∙◌, ◌≤◌,
  ◌≡◌, refl, ap, Bool, true, not, some, List, [], ◌∷◌, ◌++◌, Str, ◌==◌, arith, map, length, take,
  All, filter_by, filter_by-All, All-take, All-map, length-append, length-take, min, ◌+◌,
}
use repram.Wire.{NodeInfo}
use repram.Tree.{to_alternative, get_alternative_substrates}

-- The peers of one enclave and then the others are all the peers.
length-parts :
    (p : NodeInfo → Bool) (peers : List NodeInfo)
    → length (filter_by p peers ++ filter_by (λ x. not (p x)) peers) ≡ length peers
length-parts p peers =
    let both = length-append (filter_by p peers) (filter_by (λ x. not (p x)) peers) in
    let sum = go peers in omega arith
  where
    go :
        (xs : List NodeInfo)
        → length (filter_by p xs) + length (filter_by (λ x. not (p x)) xs) ≡ length xs
    go [] = omega arith
    go (x ∷ xs) = ground (arith, go xs)

length-map : {A B : Type 0} (f : A → B) (xs : List A) → length (map f xs) ≡ length xs
length-map f [] = refl
length-map f (x ∷ xs) = omega (arith, length-map f xs)

take-append : {A : Type 0} (n : ℕ) (xs ys : List A) → n ≤ length xs → take n (xs ++ ys) ≡ take n xs
take-append zero xs ys h = refl
take-append (suc n) [] ys h = ground arith
take-append (suc n) (x ∷ xs) ys h = ap (◌∷◌ x) (take-append n xs ys (omega arith))

-- A redirect names as many of the peers as there are, five at most, and if five or more of them are
-- of the enclave asked for, only peers of that enclave.
pub get_alternative_substrates_lem :
    (local_node : NodeInfo) (peers : List NodeInfo) (enclave : Str)
    → (length (get_alternative_substrates local_node peers (some enclave)) ≡ min 5 (length peers))
      × ((length (filter_by (λ p. p.enclave == enclave) peers) < 5)
          ⊎ All
              (λ a. (a.enclave == enclave) ≡ true)
              (get_alternative_substrates local_node peers (some enclave)))
unfolding get_alternative_substrates
get_alternative_substrates_lem local_node peers enclave =
    let same = filter_by (λ p. p.enclave == enclave) peers in
    let others = filter_by (λ p. not (p.enclave == enclave)) peers in
    let count = length-parts (λ p. p.enclave == enclave) peers in
    let taken = length-take 5 (same ++ others) in
    (
      length-map to_alternative (take 5 (same ++ others)) ∙ taken ∙ ap (min 5) count,
      elim (Bool-cases (ltb (length same) 5)) [
        | inl few ↦ inl (ltb→lt _ _ few)
        | inr many ↦ inr (
            All-map _ to_alternative (take 5 (same ++ others)) (
              subst (All (λ p. (p.enclave == enclave) ≡ true))
                (sym (take-append 5 same others (ltb-false→le _ _ many)))
                (All-take _ 5 same (filter_by-All _ peers))))
      ],
    )
