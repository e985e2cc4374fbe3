-- ===== src/Server/Keys.antt =====
-- repram-mcp/src/node/server.ts: the pages of `GET /v1/keys`.
use repram.Common.{
  ℕ, zero, suc, ◌+◌, ◌-◌, ◌/◌, ◌≤◌, ◌<◌, ◌≡◌, Bool, true, false, Option, none, some, List, [], ◌∷◌,
  Str, truthy, ltb, leb, if◌then◌else◌, length, take, drop, get_elem?, str_le,
}
pub mod Search
pub mod Order
pub mod Walk

-- `keys.sort()`, which orders by UTF-16 code units: any sort gives the same list, this one inserts.
unfoldable pub insert_sorted : Str → List Str → List Str
insert_sorted k [] = k ∷ []
insert_sorted k (x ∷ xs) = if str_le k x then k ∷ x ∷ xs else x ∷ insert_sorted k xs

unfoldable pub sort : List Str → List Str
unfolding insert_sorted
sort [] = []
sort (k ∷ ks) = insert_sorted k (sort ks)

-- `sortedKeys[mid] <= cursor`; past the end, `undefined <= cursor` is false.
abbrev pub at_or_before : List Str → Str → ℕ → Bool
at_or_before keys cursor mid = elim (get_elem? keys mid) [ none ↦ false | some k ↦ str_le k cursor ]

-- The loop of `binarySearch` on fuel: none where the fuel does not suffice.
unfoldable pub search_loop : ℕ → List Str → Str → ℕ → ℕ → Option ℕ
search_loop zero keys cursor lo hi = none
search_loop (suc fuel) keys cursor lo hi =
    let mid = (lo + hi) / 2 in
    let right = search_loop fuel keys cursor (mid + 1) hi in
    let left = search_loop fuel keys cursor lo mid in
    if ltb lo hi then if at_or_before keys cursor mid then right else left else some lo

unfoldable pub binary_search : List Str → Str → Option ℕ
binary_search keys cursor = search_loop (suc (length keys)) keys cursor 0 (length keys)

pub record Page : Type 0 where
  pub keys : List Str
  pub next_cursor : Option Str

-- `if (cursor) …`: an empty cursor is none.
unfoldable pub after_cursor : List Str → Option Str → Option (List Str)
after_cursor keys none = some keys
after_cursor keys (some cursor) =
    if truthy cursor
    then elim (binary_search keys cursor) [ none ↦ none | some idx ↦ some (drop idx keys) ]
    else some keys

-- `if (nextCursor) body.next_cursor = nextCursor`
abbrev pub truthy_cursor : Option Str → Option Str
truthy_cursor none = none
truthy_cursor (some k) = if truthy k then some k else none

-- `limit` is none where the parameter is missing or no number.
unfoldable pub cut : List Str → Option ℕ → Page
cut keys none = record { keys = keys; next_cursor = none }
cut keys (some limit) =
    if ltb 0 limit
    then if ltb limit (length keys)
      then record {
        keys = take limit keys;
        next_cursor = truthy_cursor (get_elem? keys (limit - 1));
      }
      else record { keys = keys; next_cursor = none }
    else record { keys = keys; next_cursor = none }

-- `keysHandler` on the keys that `scan` returns.
unfoldable pub keys_handler : List Str → Option Str → Option ℕ → Option Page
keys_handler scanned cursor limit = elim (after_cursor (sort scanned) cursor) [
  | none ↦ none
  | some keys ↦ some (cut keys limit)
]
