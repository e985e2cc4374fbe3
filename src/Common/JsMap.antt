-- ===== src/Common/JsMap.antt =====
-- `Map<string, V>` of JavaScript: entries in the order of insertion, where a write of a present
-- key keeps its place.
use Prim.Native.Nat.{ℕ, suc, ◌+◌, ◌≤◌}
use mathlib.Core.Path.{◌≡◌, refl, sym, subst}
use mathlib.Core.Bool.{Bool, true, false}
use mathlib.Core.List.{List, [], ◌∷◌, ◌++◌, map}
use mathlib.Core.Logic.{inl, inr}
use mathlib.Core.Option.{Option, none, some}
use native.Mathlib.Omega.{arith}
use repram.Common.Tests.{if◌then◌else◌, Bool-cases}
use repram.Common.Lists.{length}
use repram.Common.Strings.{Str, ◌==◌, eq_iff}

abbrev pub JsMap {ℓ} : Type ℓ → Type ℓ
JsMap V = List (Str × V)

module _ {ℓ} {V : Type ℓ} where
  -- `m.get(k)`
  unfoldable pub lookup : Str → JsMap V → Option V
  lookup k [] = none
  lookup k ((i, w) ∷ m) = if i == k then some w else lookup k m

  -- `m.has(k)`
  unfoldable pub has : Str → JsMap V → Bool
  has k [] = false
  has k ((j, v) ∷ m) = if j == k then true else has k m

  -- `m.set(k, v)`
  unfoldable pub insert : Str → V → JsMap V → JsMap V
  insert k v [] = (k, v) ∷ []
  insert k v ((i, w) ∷ m) = if i == k then (i, v) ∷ m else (i, w) ∷ insert k v m

  -- `for (const [k, v] of m) if (!p(k, v)) m.delete(k)`
  unfoldable pub retain : (Str → V → Bool) → JsMap V → JsMap V
  retain p [] = []
  retain p ((j, v) ∷ m) = if p j v then (j, v) ∷ retain p m else retain p m

  -- `m.delete(k)`
  unfoldable pub erase : Str → JsMap V → JsMap V
  erase k [] = []
  erase k ((j, v) ∷ m) = if j == k then erase k m else (j, v) ∷ erase k m

  -- `Array.from(m.values())`
  abbrev pub values : JsMap V → List V
  values = map (λ e. e.1)

  abbrev pub keys : JsMap V → List Str
  keys = map (λ e. e.0)

  -- `m.size`
  abbrev pub size : JsMap V → ℕ
  size = length

  -- No key twice, as in every map that is built by the operations.
  abbrev pub IsMap : JsMap V → Type ℓ
  IsMap [] = Unit
  IsMap ((k, v) ∷ m) = (lookup k m ≡ none) × IsMap m

  -- A property of every entry.
  abbrev pub Each {κ} : (Str → V → Type κ) → JsMap V → Type κ
  Each P [] = Unit
  Each P ((k, v) ∷ m) = P k v × Each P m

  -- The sum of a measure over the entries.
  unfoldable pub total : (V → ℕ) → JsMap V → ℕ
  total f [] = 0
  total f ((k, v) ∷ m) = f v + total f m

  -- The measure of the entry of a key, 0 where there is none.
  abbrev pub measure_at : (V → ℕ) → Option V → ℕ
  measure_at f none = 0
  measure_at f (some v) = f v

  pub lookup-insert :
      (written read : Str) (v : V) (m : JsMap V)
      → lookup read (insert written v m) ≡ (if written == read then some v else lookup read m)
  unfolding lookup insert
  lookup-insert written read v [] = refl
  lookup-insert written read v (e ∷ rest) = ground (arith, lookup-insert written read v rest)

  pub lookup-insert_self : (k : Str) (v : V) (m : JsMap V) → lookup k (insert k v m) ≡ some v
  lookup-insert_self k v m = ground (arith, lookup-insert k k v m)

  pub lookup-erase :
      (k j : Str) (m : JsMap V) → lookup j (erase k m) ≡ (if k == j then none else lookup j m)
  unfolding lookup erase
  lookup-erase k j [] = ground arith
  lookup-erase k j ((i, w) ∷ m) = ground (arith, lookup-erase k j m)

  pub has-lookup : (k : Str) (m : JsMap V) → has k m ≡ false → lookup k m ≡ none
  unfolding has lookup
  has-lookup k [] h = refl
  has-lookup k ((i, w) ∷ m) h = ground (arith, has-lookup k m)

  pub lookup-has : (k : Str) (m : JsMap V) → lookup k m ≡ none → has k m ≡ false
  unfolding has lookup
  lookup-has k [] h = refl
  lookup-has k ((i, w) ∷ m) h = ground (arith, lookup-has k m)

  pub has-insert :
      (k j : Str) (v : V) (m : JsMap V) → has j (insert k v m) ≡ (if k == j then true else has j m)
  unfolding has insert
  has-insert k j v [] = refl
  has-insert k j v ((i, w) ∷ m) = ground (arith, has-insert k j v m)

  lookup-retain-none :
      (p : Str → V → Bool) (k : Str) (m : JsMap V)
      → lookup k m ≡ none
      → lookup k (retain p m) ≡ none
  unfolding lookup retain
  lookup-retain-none p k [] h = refl
  lookup-retain-none p k ((i, w) ∷ m) h = ground (arith, lookup-retain-none p k m)

  -- The entry that a filter leaves under a key.
  abbrev pub keep_if : (Str → V → Bool) → Str → Option V → Option V
  keep_if p k none = none
  keep_if p k (some v) = if p k v then some v else none

  pub lookup-retain :
      (p : Str → V → Bool) (k : Str) (m : JsMap V)
      → IsMap m
      → lookup k (retain p m) ≡ keep_if p k (lookup k m)
  unfolding lookup retain
  lookup-retain p k [] h = refl
  lookup-retain p k ((i, w) ∷ m) h =
      ground (arith, lookup-retain p k m h.1, lookup-retain-none p k m)

  pub insert-IsMap : (k : Str) (v : V) (m : JsMap V) → IsMap m → IsMap (insert k v m)
  unfolding insert
  insert-IsMap k v [] h = (unfold lookup in refl, tt)
  insert-IsMap k v ((i, w) ∷ m) h = ground (arith, insert-IsMap k v m h.1, lookup-insert k i v m)

  pub erase-IsMap : (k : Str) (m : JsMap V) → IsMap m → IsMap (erase k m)
  unfolding erase
  erase-IsMap k [] h = tt
  erase-IsMap k ((i, w) ∷ m) h = ground (arith, erase-IsMap k m h.1, lookup-erase k i m)

  pub retain-IsMap : (p : Str → V → Bool) (m : JsMap V) → IsMap m → IsMap (retain p m)
  unfolding retain
  retain-IsMap p [] h = tt
  retain-IsMap p ((i, w) ∷ m) h = ground (arith, retain-IsMap p m h.1, lookup-retain-none p i m)

  pub Each-insert {κ} :
      (P : Str → V → Type κ) (k : Str) (v : V) (m : JsMap V)
      → P k v
      → Each P m
      → Each P (insert k v m)
  unfolding insert
  Each-insert P k v [] h e = (h, tt)
  Each-insert P k v ((i, w) ∷ m) h e = elim (Bool-cases (i == k)) [
    | inl same ↦ rw same (subst (λ x. P x v) (sym ((eq_iff i k).0 same)) h, e.1)
    | inr other ↦ rw other (e.0, Each-insert P k v m h e.1)
  ]

  pub Each-retain {κ} :
      (P : Str → V → Type κ) (p : Str → V → Bool) (m : JsMap V) → Each P m → Each P (retain p m)
  unfolding retain
  Each-retain P p [] e = tt
  Each-retain P p ((i, w) ∷ m) e = ground (arith, Each-retain P p m e.1)

  pub Each-erase {κ} :
      (P : Str → V → Type κ) (k : Str) (m : JsMap V) → Each P m → Each P (erase k m)
  unfolding erase
  Each-erase P k [] e = tt
  Each-erase P k ((i, w) ∷ m) e = ground (arith, Each-erase P k m e.1)

  pub Each-lookup {κ} :
      (P : Str → V → Type κ) (k : Str) (m : JsMap V) {v : V}
      → Each P m
      → lookup k m ≡ some v
      → P k v
  unfolding lookup
  Each-lookup P k [] e h = cc
  Each-lookup P k ((i, w) ∷ m) {v} e h = elim (Bool-cases (i == k)) [
    | inl same ↦
        let found : w ≡ v = ground arith in
        subst (P k) found (subst (λ x. P x w) ((eq_iff i k).0 same) e.0)
    | inr other ↦ Each-lookup P k m e.1 (rw other at h)
  ]

  pub total-insert :
      (f : V → ℕ) (k : Str) (v : V) (m : JsMap V)
      → total f (insert k v m) + measure_at f (lookup k m) ≡ total f m + f v
  unfolding total insert lookup
  total-insert f k v [] = omega arith
  total-insert f k v ((i, w) ∷ m) = ground (arith, total-insert f k v m)

  pub measure_at-le-total :
      (f : V → ℕ) (k : Str) (m : JsMap V) → measure_at f (lookup k m) ≤ total f m
  unfolding total lookup
  measure_at-le-total f k [] = omega arith
  measure_at-le-total f k ((i, w) ∷ m) = ground (arith, measure_at-le-total f k m)

  pub length-insert-le : (k : Str) (v : V) (m : JsMap V) → size (insert k v m) ≤ suc (size m)
  unfolding insert
  length-insert-le k v [] = omega arith
  length-insert-le k v ((i, w) ∷ m) = ground (arith, length-insert-le k v m)

  pub insert_new :
      (k : Str) (v : V) (m : JsMap V) → lookup k m ≡ none → insert k v m ≡ m ++ (k, v) ∷ []
  unfolding insert lookup
  insert_new k v [] h = refl
  insert_new k v ((i, w) ∷ m) h = ground (arith, insert_new k v m)

  pub length-erase-le : (k : Str) (m : JsMap V) → size (erase k m) ≤ size m
  unfolding erase
  length-erase-le k [] = omega arith
  length-erase-le k ((i, w) ∷ m) = ground (arith, length-erase-le k m)

  pub length-retain-le : (p : Str → V → Bool) (m : JsMap V) → size (retain p m) ≤ size m
  unfolding retain
  length-retain-le p [] = omega arith
  length-retain-le p ((i, w) ∷ m) = ground (arith, length-retain-le p m)
