-- ===== src/Common/Strings.antt =====
-- JavaScript strings: lists of UTF-16 code units, with `===`, `startsWith` and the order of `<=`.
use Prim.Native.Char.{code}
use Prim.Native.String.{String}
use Prim.Native.Nat.{ℕ, zero, suc, ◌+◌, ◌/◌, ◌%◌}
use mathlib.Core.Path.{◌≡◌, refl}
use mathlib.Core.Logic.{◌↔◌, inl, inr}
use mathlib.Core.Bool.{Bool, true, false, ◌&&◌, ◌||◌}
use mathlib.Core.List.{List, [], ◌∷◌, ◌++◌}
use native.Mathlib.Omega.{arith}
use native.Mathlib.Decide.{ℕ_discrete}
use repram.Common.Tests.{Bool-cases, if◌then◌else◌, ltb, nat_eq}

abbrev pub Str : Type 0
Str = List ℕ

-- The code units of a literal.
abbrev pub js : String → Str
js String.[] = []
js (String.◌∷◌ c s) = code c ∷ js s

-- The literals of the source that the node compares with.
abbrev pub default_enclave : Str
default_enclave = js "default"

pub cons_ne_nil : (x : ℕ) (s : Str) → ¬ (x ∷ s ≡ [])
cons_ne_nil x s e = cc

pub nil_ne_cons : (x : ℕ) (s : Str) → ¬ ([] ≡ x ∷ s)
nil_ne_cons x s e = cc

pub cons_eq : (x y : ℕ) (s t : Str) → x ≡ y → s ≡ t → x ∷ s ≡ y ∷ t
cons_eq x y s t p q = cc

pub head_eq : (x y : ℕ) (s t : Str) → x ∷ s ≡ y ∷ t → x ≡ y
head_eq x y s t e = cc

pub tail_eq : (x y : ℕ) (s t : Str) → x ∷ s ≡ y ∷ t → s ≡ t
tail_eq x y s t e = cc

cons_discrete : (x y : ℕ) (s t : Str) → Dec (x ≡ y) → Dec (s ≡ t) → Dec (x ∷ s ≡ y ∷ t)
cons_discrete x y s t (yes p) (yes q) = yes (cons_eq x y s t p q)
cons_discrete x y s t (yes p) (no n) = no (λ e. n (tail_eq x y s t e))
cons_discrete x y s t (no n) d = no (λ e. n (head_eq x y s t e))

unfoldable pub str_discrete : Discrete Str
unfolding cons_discrete ℕ_discrete
str_discrete [] [] = yes refl
str_discrete [] (y ∷ t) = no (nil_ne_cons y t)
str_discrete (x ∷ s) [] = no (cons_ne_nil x s)
str_discrete (x ∷ s) (y ∷ t) = cons_discrete x y s t (ℕ_discrete x y) (str_discrete s t)

-- `a === b`.
infix 50 ◌==◌
abbrev pub ◌==◌ : Str → Str → Bool
a == b = elim (str_discrete a b) [ yes _ ↦ true | no _ ↦ false ]

-- The truth value of a string: the empty one is falsy.
abbrev pub truthy : Str → Bool
truthy [] = false
truthy (c ∷ s) = true

-- `key.startsWith(prefix)`, the prefix first.
unfoldable pub starts_with : Str → Str → Bool
starts_with [] s = true
starts_with (c ∷ p) [] = false
starts_with (c ∷ p) (d ∷ s) = nat_eq c d && starts_with p s

-- `a <= b` on strings: the order of the first code unit that differs, the shorter string first.
unfoldable pub str_le : Str → Str → Bool
str_le [] b = true
str_le (c ∷ a) [] = false
str_le (c ∷ a) (d ∷ b) = if nat_eq c d then str_le a b else ltb c d

-- `keys.includes(k)`
unfoldable pub includes : Str → List Str → Bool
includes k [] = false
includes k (x ∷ xs) = if x == k then true else includes k xs

pub eq_refl : (a : Str) → (a == a) ≡ true
eq_refl a = ground arith

pub eq_iff : (a b : Str) → ((a == b) ≡ true) ↔ (a ≡ b)
eq_iff a b = ground arith

pub starts_with-append : (p s : Str) → starts_with p (p ++ s) ≡ true
unfolding starts_with
starts_with-append [] s = refl
starts_with-append (c ∷ p) s = ground (arith, starts_with-append p s)

pub str_le_refl : (a : Str) → str_le a a ≡ true
unfolding str_le
str_le_refl [] = refl
str_le_refl (c ∷ a) = ground (arith, str_le_refl a)

pub str_le_trans : (a b c : Str) → str_le a b ≡ true → str_le b c ≡ true → str_le a c ≡ true
unfolding str_le
str_le_trans [] b c h k = refl
str_le_trans (x ∷ a) [] c h k = cc
str_le_trans (x ∷ a) (y ∷ b) [] h k = cc
str_le_trans (x ∷ a) (y ∷ b) (z ∷ c) h k = ground (arith, str_le_trans a b c)

pub str_le_antisymm : (a b : Str) → str_le a b ≡ true → str_le b a ≡ true → a ≡ b
unfolding str_le
str_le_antisymm [] [] h k = refl
str_le_antisymm [] (y ∷ b) h k = cc
str_le_antisymm (x ∷ a) [] h k = cc
str_le_antisymm (x ∷ a) (y ∷ b) h k = ground (arith, str_le_antisymm a b)

pub str_le_total : (a b : Str) → str_le a b ≡ false → str_le b a ≡ true
unfolding str_le
str_le_total [] b h = cc
str_le_total (x ∷ a) [] h = refl
str_le_total (x ∷ a) (y ∷ b) h = ground (arith, str_le_total a b)

-- `String(n)`: the decimal digits, with more fuel than there are digits.
unfoldable pub decimal_digits : ℕ → ℕ → Str
decimal_digits zero n = []
decimal_digits (suc fuel) n =
    let front = decimal_digits fuel (n / 10) in
    if ltb n 10 then (48 + n) ∷ [] else front ++ (48 + n % 10) ∷ []

unfoldable pub decimal : ℕ → Str
unfolding decimal_digits
decimal n = decimal_digits (suc n) n

append-truthy : (s : Str) (c : ℕ) → truthy (s ++ c ∷ []) ≡ true
append-truthy [] c = refl
append-truthy (d ∷ s) c = refl

pub decimal-truthy : (n : ℕ) → truthy (decimal n) ≡ true
unfolding decimal decimal_digits
decimal-truthy n = elim (Bool-cases (ltb n 10)) [
  | inl small ↦ rw small refl
  | inr large ↦ rw large (append-truthy (decimal_digits n (n / 10)) (48 + n % 10))
]

pub includes-append :
    (k : Str) (xs ys : List Str) → includes k (xs ++ ys) ≡ (includes k xs || includes k ys)
unfolding includes
includes-append k [] ys = refl
includes-append k (x ∷ xs) ys = ground (arith, includes-append k xs ys)
