-- ===== src/Server/Keys/Search.antt =====
-- repram-mcp/src/node/server.ts: `binarySearch` finds the first key after the cursor.
use repram.Common.{
  ℕ, zero, suc, ◌+◌, ◌-◌, ◌/◌, ◌≤◌, ◌<◌, ◌≡◌, refl, ap, true, false, some, List, [], ◌∷◌, Str, ltb,
  if◌then◌else◌, length, str_le, str_le_trans, arith, Bool-cases, inl, inr, All, ltb→lt,
  ltb-false→le,
}
use repram.Server.Keys.{at_or_before, search_loop, binary_search}

-- In ascending order: each key is at or before all that follow.
abbrev pub Sorted : List Str → Type 0
Sorted [] = Unit
Sorted (k ∷ ks) = All (λ x. str_le k x ≡ true) ks × Sorted ks

-- The number of leading keys that are at or before the cursor.
unfoldable pub count_before : Str → List Str → ℕ
count_before cursor [] = 0
count_before cursor (k ∷ ks) = if str_le k cursor then suc (count_before cursor ks) else 0

count_before-le : (cursor : Str) (keys : List Str) → count_before cursor keys ≤ length keys
unfolding count_before
count_before-le cursor [] = omega arith
count_before-le cursor (k ∷ ks) = ground (arith, count_before-le cursor ks)

none_before :
    (cursor k : Str) (ks : List Str)
    → str_le k cursor ≡ false
    → All (λ x. str_le k x ≡ true) ks
    → (i : ℕ) → at_or_before ks cursor i ≡ false
none_before cursor k [] h a i = refl
none_before cursor k (x ∷ ks) h a zero = ground (arith, str_le_trans k x cursor)
none_before cursor k (x ∷ ks) h a (suc i) = none_before cursor k ks h a.1 i

-- In a sorted list, the keys at or before the cursor are the leading ones.
at_or_before-count :
    (cursor : Str) (keys : List Str) (i : ℕ)
    → Sorted keys
    → at_or_before keys cursor i ≡ ltb i (count_before cursor keys)
unfolding count_before
at_or_before-count cursor [] i s = ground arith
at_or_before-count cursor (k ∷ ks) zero s = ground arith
at_or_before-count cursor (k ∷ ks) (suc i) s = elim (Bool-cases (str_le k cursor)) [
  | inl le ↦ rw le (ground (arith, at_or_before-count cursor ks i s.1))
  | inr gt ↦ rw gt (ground (arith, none_before cursor k ks gt s.0 i))
]

-- The fuel bounds the distance; the answer stays between lo and hi.
search_loop-count :
    (fuel : ℕ) (keys : List Str) (cursor : Str) (lo hi : ℕ)
    → Sorted keys
    → hi - lo < fuel
    → lo ≤ count_before cursor keys
    → count_before cursor keys ≤ hi
    → search_loop fuel keys cursor lo hi ≡ some (count_before cursor keys)
unfolding search_loop
search_loop-count zero keys cursor lo hi s f l h = ground arith
search_loop-count (suc fuel) keys cursor lo hi s f l h =
    let mid = (lo + hi) / 2 in
    let test = at_or_before-count cursor keys mid s in
    let right = search_loop-count fuel keys cursor (mid + 1) hi s in
    let left = search_loop-count fuel keys cursor lo mid s in
    elim (Bool-cases (ltb lo hi)) [
      | inr done ↦
          let end = ltb-false→le lo hi done in
          let same : lo ≡ count_before cursor keys = omega arith in rw done (ap some same)
      | inl open_range ↦
          let below = ltb→lt lo hi open_range in
          elim (Bool-cases (ltb mid (count_before cursor keys))) [
            | inl le ↦
                let inside = ltb→lt _ _ le in
                rw (open_range, test, le) (right (omega arith) (omega arith) h)
            | inr gt ↦
                let outside = ltb-false→le _ _ gt in
                rw (open_range, test, gt) (left (omega arith) l (omega arith))
          ]
    ]

-- On sorted keys, `binarySearch` ends within as many rounds as there are keys and one, and its
-- result is the number of keys that are at or before the cursor, which are the leading ones.
pub binary_search-count :
    (keys : List Str) (cursor : Str)
    → Sorted keys
    → binary_search keys cursor ≡ some (count_before cursor keys)
unfolding binary_search
binary_search-count keys cursor s =
    search_loop-count (suc (length keys)) keys cursor 0 (length keys) s (omega arith) (omega arith)
      (count_before-le cursor keys)
