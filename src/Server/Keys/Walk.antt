-- ===== src/Server/Keys/Walk.antt =====
-- repram-mcp/src/node/server.ts: a client that follows the cursors of `GET /v1/keys`.
use repram.Common.{
  ℕ, zero, suc, ◌+◌, ◌-◌, ◌<◌, ◌≡◌, refl, sym, ap, ◌∙◌, true, false, Option, none, some, List, [],
  ◌∷◌, ◌++◌, Str, truthy, ltb, length, take, drop, get_elem?, str_le, str_le_refl, str_le_total,
  arith, Bool-cases, inl, inr, All, ltb→lt, lt→ltb, take-append-drop, length-drop, subst,
}
use repram.Server.Keys.{sort, after_cursor, cut, keys_handler}
use repram.Server.Keys.Order.{
  Distinct, Proper, Strict, Strict-Sorted, length-sort, sort-All, sort-Strict,
}
use repram.Server.Keys.Search.{count_before, binary_search-count}

-- A client asks for page after page until one comes without a cursor; on fuel.
unfoldable pub walk : ℕ → List Str → Option Str → ℕ → Option (List Str)
walk zero scanned cursor limit = none
walk (suc fuel) scanned cursor limit = elim (keys_handler scanned cursor (some limit)) [
  | none ↦ none
  | some page ↦ elim page.next_cursor [
    | none ↦ some page.keys
    | some next ↦ elim (walk fuel scanned (some next) limit) [
      | none ↦ none
      | some rest ↦ some (page.keys ++ rest)
    ]
  ]
]

none-before : (k : Str) (xs : List Str) → All (λ x. str_le x k ≡ false) xs → count_before k xs ≡ 0
unfolding count_before
none-before k [] a = refl
none-before k (x ∷ xs) a = ground arith

All-get {κ} :
    (P : Str → Type κ) (xs : List Str) (j : ℕ) (k : Str) → All P xs → get_elem? xs j ≡ some k → P k
All-get P [] j k a e = cc
All-get P (x ∷ xs) zero k a e = let same : x ≡ k = ground arith in subst P same a.0
All-get P (x ∷ xs) (suc j) k a e = All-get P xs j k a.1 e

-- The keys at or before the key at an index are those up to it.
count-get :
    (xs : List Str) (j : ℕ) (k : Str)
    → Strict xs
    → get_elem? xs j ≡ some k
    → count_before k xs ≡ suc j
unfolding count_before
count-get [] j k s e = cc
count-get (x ∷ xs) zero k s e =
    let same : x ≡ k = ground arith in
    ground (
      arith,
      str_le_refl k,
      none-before k xs (subst (λ y. All (λ z. str_le z y ≡ false) xs) same s.0),
    )
count-get (x ∷ xs) (suc j) k s e =
    let above = All-get (λ y. str_le y x ≡ false) xs j k s.0 e in
    ground (arith, str_le_total k x, count-get xs j k s.1)

get-drop : (xs : List Str) (i j : ℕ) → get_elem? (drop i xs) j ≡ get_elem? xs (i + j)
get-drop xs zero j = let same : 0 + j ≡ j = omega arith in rw same refl
get-drop [] (suc i) j = refl
get-drop (x ∷ xs) (suc i) j =
    let next : suc i + j ≡ suc (i + j) = omega arith in rw next (get-drop xs i j)

drop-nil : (n : ℕ) → drop {A = Str} n [] ≡ []
drop-nil zero = refl
drop-nil (suc n) = refl

drop-drop : (i j : ℕ) (xs : List Str) → drop j (drop i xs) ≡ drop (i + j) xs
drop-drop zero j xs = let same : 0 + j ≡ j = omega arith in rw same refl
drop-drop (suc i) j [] = drop-nil j ∙ sym (drop-nil (suc i + j))
drop-drop (suc i) j (x ∷ xs) =
    let next : suc i + j ≡ suc (i + j) = omega arith in rw next (drop-drop i j xs)

get-below : (xs : List Str) (i : ℕ) → i < length xs → (k : Str) × (get_elem? xs i ≡ some k)
get-below [] i h = ground arith
get-below (x ∷ xs) zero h = (x, refl)
get-below (x ∷ xs) (suc i) h = get-below xs i (omega arith)

-- The cursor that names the key before an index asks for the keys from that index on.
after_cursor-get :
    (xs : List Str) (j : ℕ) (k : Str)
    → Strict xs
    → Proper xs
    → get_elem? xs j ≡ some k
    → after_cursor xs (some k) ≡ some (drop (suc j) xs)
unfolding after_cursor
after_cursor-get xs j k s p e =
    let real = All-get (λ y. truthy y ≡ true) xs j k p e in
    rw (real, binary_search-count xs k (Strict-Sorted xs s), count-get xs j k s e) refl

handler-cut :
    (scanned keys : List Str) (cursor : Option Str) (limit : ℕ)
    → after_cursor (sort scanned) cursor ≡ some keys
    → keys_handler scanned cursor (some limit) ≡ some (cut keys (some limit))
unfolding keys_handler
handler-cut scanned keys cursor limit e = rw (e, keys_handler) refl

cut-last :
    (keys : List Str) (limit : ℕ)
    → ltb limit (length keys) ≡ false
    → cut keys (some limit) ≡ record { keys = keys; next_cursor = none }
unfolding cut
cut-last keys limit e = ground (arith, e)

cut-more :
    (keys : List Str) (limit : ℕ) (k : Str)
    → 0 < limit
    → ltb limit (length keys) ≡ true
    → get_elem? keys (limit - 1) ≡ some k
    → truthy k ≡ true
    → cut keys (some limit) ≡ record { keys = take limit keys; next_cursor = some k }
unfolding cut
cut-more keys limit k l e at real = rw (lt→ltb 0 limit l, e, at, real) refl

walk-last :
    (fuel : ℕ) (scanned keys : List Str) (cursor : Option Str) (limit : ℕ)
    → keys_handler scanned cursor (some limit) ≡ some (record { keys = keys; next_cursor = none })
    → walk (suc fuel) scanned cursor limit ≡ some keys
unfolding walk
walk-last fuel scanned keys cursor limit e = rw (e, walk) refl

walk-more :
    (fuel : ℕ) (scanned keys rest : List Str) (cursor : Option Str) (k : Str) (limit : ℕ)
    → keys_handler scanned cursor (some limit) ≡ some (record { keys = keys; next_cursor = some k })
    → walk fuel scanned (some k) limit ≡ some rest
    → walk (suc fuel) scanned cursor limit ≡ some (keys ++ rest)
unfolding walk
walk-more fuel scanned keys rest cursor k limit e f = rw (e, f, walk) refl

-- The pages from an index on are the keys from that index on.
walk-drop :
    (fuel : ℕ) (scanned : List Str) (cursor : Option Str) (limit i : ℕ)
    → Strict (sort scanned)
    → Proper (sort scanned)
    → 0 < limit
    → after_cursor (sort scanned) cursor ≡ some (drop i (sort scanned))
    → length (sort scanned) - i < fuel
    → walk fuel scanned cursor limit ≡ some (drop i (sort scanned))
walk-drop zero scanned cursor limit i s p l a f = ground arith
walk-drop (suc fuel) scanned cursor limit i s p l a f =
    let xs = sort scanned in
    let page = handler-cut scanned (drop i xs) cursor limit a in
    let left = length-drop i xs in
    elim (Bool-cases (ltb limit (length (drop i xs)))) [
      | inr last ↦
          walk-last fuel scanned (drop i xs) cursor limit
            (page ∙ ap some (cut-last (drop i xs) limit last))
      | inl more ↦
          let beyond = ltb→lt _ _ more in
          let (k, at) = get-below (drop i xs) (limit - 1) (omega arith) in
          let at_index = sym (get-drop xs i (limit - 1)) ∙ at in
          let real = All-get (λ y. truthy y ≡ true) xs (i + (limit - 1)) k p at_index in
          let next : suc (i + (limit - 1)) ≡ i + limit = omega arith in
          let from_next = after_cursor-get xs (i + (limit - 1)) k s p at_index in
          let rest =
            walk-drop fuel scanned (some k) limit (i + limit) s p l
              (from_next ∙ ap (λ n. some (drop n xs)) next) (omega arith) in
          walk-more fuel scanned (take limit (drop i xs)) (drop (i + limit) xs) cursor k limit
            (page ∙ ap some (cut-more (drop i xs) limit k l more at real)) rest
          ∙ ap some (
              ap (◌++◌ (take limit (drop i xs))) (sym (drop-drop i limit xs))
              ∙ take-append-drop limit (drop i xs))
    ]

-- A client that follows the cursors with any positive limit gets every key, each once, in ascending
-- order, in no more pages than there are keys and one, whatever order the keys are scanned in,
-- provided that no key is empty; the keys of a map are distinct.
pub walk-sort :
    (scanned : List Str) (limit : ℕ)
    → Distinct scanned
    → Proper scanned
    → 0 < limit
    → walk (suc (length scanned)) scanned none limit ≡ some (sort scanned)
unfolding after_cursor
walk-sort scanned limit d p l =
    let size = length-sort scanned in
    walk-drop (suc (length scanned)) scanned none limit 0 (sort-Strict scanned d)
      (sort-All _ scanned p) l refl (omega arith)
