-- ===== src/Server/Keys/Order.antt =====
-- repram-mcp/src/node/server.ts: the order in which `GET /v1/keys` lists the keys.
use repram.Common.{
  suc, ◌≡◌, refl, ◌∙◌, true, false, List, [], ◌∷◌, Str, truthy, length, str_le, str_le_trans,
  str_le_total, str_le_antisymm, arith, Bool-cases, inl, inr, All, includes,
}
use repram.Server.Keys.{insert_sorted, sort}
use repram.Server.Keys.Search.{Sorted}

-- No key twice, and no empty key.
abbrev pub Distinct : List Str → Type 0
Distinct [] = Unit
Distinct (k ∷ ks) = (includes k ks ≡ false) × Distinct ks

abbrev pub Proper : List Str → Type 0
Proper = All (λ k. truthy k ≡ true)

-- In strictly ascending order.
abbrev pub Strict : List Str → Type 0
Strict [] = Unit
Strict (k ∷ ks) = All (λ x. str_le x k ≡ false) ks × Strict ks

insert_sorted-All :
    (P : Str → Type 0) (k : Str) (xs : List Str) → P k → All P xs → All P (insert_sorted k xs)
unfolding insert_sorted
insert_sorted-All P k [] p a = (p, tt)
insert_sorted-All P k (x ∷ xs) p a = elim (Bool-cases (str_le k x)) [
  | inl le ↦ rw le (p, a)
  | inr gt ↦ rw gt (a.0, insert_sorted-All P k xs p a.1)
]

above-le :
    (k x : Str) (xs : List Str)
    → str_le k x ≡ true
    → All (λ y. str_le y x ≡ false) xs
    → All (λ y. str_le y k ≡ false) xs
above-le k x [] h a = tt
above-le k x (y ∷ ys) h a = (ground (arith, str_le_trans y k x), above-le k x ys h a.1)

insert_sorted-Strict :
    (k : Str) (xs : List Str) → includes k xs ≡ false → Strict xs → Strict (insert_sorted k xs)
unfolding insert_sorted includes
insert_sorted-Strict k [] h s = (tt, tt)
insert_sorted-Strict k (x ∷ xs) h s = elim (Bool-cases (str_le k x)) [
  | inl le ↦
      let first : str_le x k ≡ false = ground (arith, str_le_antisymm k x) in
      rw le ((first, above-le k x xs le s.0), s)
  | inr gt ↦
      let later : includes k xs ≡ false = ground arith in
      rw gt (insert_sorted-All _ k xs gt s.0, insert_sorted-Strict k xs later s.1)
]

includes-insert_sorted :
    (j k : Str) (xs : List Str) → includes j (insert_sorted k xs) ≡ includes j (k ∷ xs)
unfolding insert_sorted includes
includes-insert_sorted j k [] = refl
includes-insert_sorted j k (x ∷ xs) = ground (arith, includes-insert_sorted j k xs)

pub includes-sort : (j : Str) (ks : List Str) → includes j (sort ks) ≡ includes j ks
unfolding sort includes
includes-sort j [] = refl
includes-sort j (k ∷ ks) = ground (arith, includes-insert_sorted j k (sort ks), includes-sort j ks)

length-insert_sorted : (k : Str) (xs : List Str) → length (insert_sorted k xs) ≡ suc (length xs)
unfolding insert_sorted
length-insert_sorted k [] = refl
length-insert_sorted k (x ∷ xs) = ground (arith, length-insert_sorted k xs)

pub length-sort : (ks : List Str) → length (sort ks) ≡ length ks
unfolding sort
length-sort [] = refl
length-sort (k ∷ ks) = omega (arith, length-insert_sorted k (sort ks), length-sort ks)

pub sort-All : (P : Str → Type 0) (ks : List Str) → All P ks → All P (sort ks)
unfolding sort
sort-All P [] a = tt
sort-All P (k ∷ ks) a = insert_sorted-All P k (sort ks) a.0 (sort-All P ks a.1)

pub sort-Strict : (ks : List Str) → Distinct ks → Strict (sort ks)
unfolding sort
sort-Strict [] d = tt
sort-Strict (k ∷ ks) d =
    insert_sorted-Strict k (sort ks) (includes-sort k ks ∙ d.0) (sort-Strict ks d.1)

All-above :
    (k : Str) (xs : List Str) → All (λ x. str_le x k ≡ false) xs → All (λ x. str_le k x ≡ true) xs
All-above k [] a = tt
All-above k (x ∷ xs) a = (str_le_total x k a.0, All-above k xs a.1)

pub Strict-Sorted : (xs : List Str) → Strict xs → Sorted xs
Strict-Sorted [] s = tt
Strict-Sorted (x ∷ xs) s = (All-above x xs s.0, Strict-Sorted xs s.1)
